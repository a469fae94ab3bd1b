-- ===== src/Tests/Streams.antt =====
-- A stream of three chunks: text, the start of a tool call and its end.
use tracklogic_agent.Common.{◌≡◌, refl, codes, [], ◌∷◌, none, some, true, false, lookup}
use tracklogic_agent.Types.{ok}
use tracklogic_agent.Model.{InvokeResponse}
use tracklogic_agent.Engine.Stream.{
  Stream, content_delta, consume_stream, drain, absorb, finish, merge_tool_call, merge_last,
  merge_at, merge_into,
}
use tracklogic_agent.Engine.Stream.Content.{
  content_of, reasoning_of, delivered, consume_stream-content, consume_stream-arguments,
}
use tracklogic_agent.Engine.Stream.Calls.{argument_size}
use tracklogic_agent.Tests.Data.{call_of, chunk_of, response_of}

abbrev chunked : Stream
chunked = record {
  chunks =
      chunk_of (codes "two ") none false
      ∷ chunk_of (codes "laps") (some (call_of (codes "c1") (codes "{\"n\":"))) false
      ∷ chunk_of [] (some (call_of [] (codes "2}"))) true
      ∷ [];
  ending = none;
}

abbrev gathered : InvokeResponse
gathered = response_of (codes "two laps") (call_of (codes "c1") (codes "{\"n\":2}") ∷ [])

consumed :
    consume_stream chunked
    ≡ (ok gathered, content_delta (codes "two ") ∷ content_delta (codes "laps") ∷ [])
unfolding consume_stream drain absorb finish merge_tool_call merge_last merge_at merge_into lookup
consumed = refl

consume_stream-content_example :
    (codes "two laps"
      ≡ content_of (content_delta (codes "two ") ∷ content_delta (codes "laps") ∷ []))
    × ([] ≡ reasoning_of (content_delta (codes "two ") ∷ content_delta (codes "laps") ∷ []))
consume_stream-content_example = consume_stream-content chunked gathered _ consumed

consume_stream-arguments_example : argument_size gathered.tool_calls ≡ delivered chunked.chunks
consume_stream-arguments_example = consume_stream-arguments chunked gathered _ consumed
