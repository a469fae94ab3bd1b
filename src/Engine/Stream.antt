-- ===== src/Engine/Stream.antt =====
-- engine/stream.go: draining the chunks of a model stream into one response. A stream is the chunks
-- that arrive and how the wait ends: by the closed channel, or by the context's error.
pub mod Calls
pub mod Content
use tracklogic_agent.Common.{
  ℕ, zero, suc, ◌-◌, Bool, true, false, Text, is_empty, List, [], ◌∷◌, ◌++◌, length, Option, none,
  some, if◌then◌else◌, Dict, lookup, insert,
}
use tracklogic_agent.Types.{ToolCall, ToolCallFunction, Usage, GoError, Result, ok, err}
use tracklogic_agent.Model.{InvokeResponse, ResponseChunk}

pub record Stream : Type 0 where
  pub chunks : List ResponseChunk
  pub ending : Option GoError  -- `none`: the channel is closed

-- What the callbacks onChunk and onReasoning are given, in order.
pub data Delta : Type 0 where
  content_delta reasoning_delta : Text → Delta

pub record Partial : Type 0 where
  pub content : Text
  pub reasoning : Text
  pub reasoning_state : List Text
  pub tool_calls : List ToolCall
  pub tool_index : Dict ℕ
  pub finish_reason : Text
  pub usage : Option Usage

abbrev pub start : Partial
start = record {
  content = [];
  reasoning = [];
  reasoning_state = [];
  tool_calls = [];
  tool_index = [];
  finish_reason = [];
  usage = none;
}

-- `if src != "" { dst = src }`
abbrev pub override : Text → Text → Text
override dst [] = dst
override dst (c ∷ s) = c ∷ s

-- mergeInto; appending empty arguments changes nothing, as in the source.
unfoldable pub merge_into : ToolCall → ToolCall → ToolCall
merge_into dst src = record {
  id = override dst.id src.id;
  kind = override dst.kind src.kind;
  function = record {
    name = override dst.function.name src.function.name;
    arguments = dst.function.arguments ++ src.function.arguments;
  };
}

-- mergeInto(&calls[i], delta); an index out of range does not occur.
unfoldable pub merge_at : List ToolCall → ℕ → ToolCall → List ToolCall
unfolding merge_into
merge_at [] i delta = []
merge_at (c ∷ cs) zero delta = merge_into c delta ∷ cs
merge_at (c ∷ cs) (suc i) delta = c ∷ merge_at cs i delta

unfoldable pub merge_last : List ToolCall → ToolCall → List ToolCall
unfolding merge_at
merge_last [] delta = delta ∷ []
merge_last (c ∷ cs) delta = merge_at (c ∷ cs) (length cs) delta

unfoldable pub merge_tool_call : List ToolCall → Dict ℕ → ToolCall → List ToolCall × Dict ℕ
unfolding merge_last
merge_tool_call calls index delta =
    if is_empty delta.id then (merge_last calls delta, index) else elim (lookup delta.id index) [
      | some i ↦ (merge_at calls i delta, index)
      | none ↦ (calls ++ delta ∷ [], insert delta.id (length calls) index)
    ]

abbrev pub merge_option : List ToolCall → Dict ℕ → Option ToolCall → List ToolCall × Dict ℕ
merge_option calls index none = (calls, index)
merge_option calls index (some delta) = merge_tool_call calls index delta

abbrev pub append_state : List Text → Text → List Text
append_state states [] = states
append_state states (c ∷ s) = states ++ (c ∷ s) ∷ []

abbrev pub or_else {ℓ} : {A : Type ℓ} → Option A → Option A → Option A
or_else none old = old
or_else (some a) old = some a

-- The body of the loop for a chunk with no error.
unfoldable pub absorb : Partial → ResponseChunk → Partial
absorb p chunk =
    let (calls, index) = merge_option p.tool_calls p.tool_index chunk.tool_call in
    record {
      content = p.content ++ chunk.content;
      reasoning = p.reasoning ++ chunk.reasoning;
      reasoning_state = append_state p.reasoning_state chunk.reasoning_state;
      tool_calls = calls;
      tool_index = index;
      finish_reason = override p.finish_reason chunk.finish_reason;
      usage = or_else chunk.usage p.usage;
    }

unfoldable pub finish : Partial → InvokeResponse
finish p = record {
  content = p.content;
  reasoning = p.reasoning;
  reasoning_state = p.reasoning_state;
  tool_calls = p.tool_calls;
  usage = p.usage;
  finish_reason = p.finish_reason;
}

abbrev pub delta_of : (Text → Delta) → Text → List Delta
delta_of make [] = []
delta_of make (c ∷ s) = make (c ∷ s) ∷ []

abbrev pub deltas_of : ResponseChunk → List Delta
deltas_of chunk = delta_of content_delta chunk.content ++ delta_of reasoning_delta chunk.reasoning

-- The loop: the response or error, and the deltas handed to the callbacks before it.
unfoldable pub drain :
    Partial → List ResponseChunk → Option GoError → Result InvokeResponse × List Delta
unfolding absorb finish
drain p [] none = (ok (finish p), [])
drain p [] (some e) = (err e, [])
drain p (chunk ∷ chunks) ending = elim chunk.error [
  | some e ↦ (err e, [])
  | none ↦
      let p' = absorb p chunk in
      let rest = drain p' chunks ending in
      elim chunk.done [
        | true ↦ (ok (finish p'), deltas_of chunk)
        | false ↦ (rest.0, deltas_of chunk ++ rest.1)
      ]
]

unfoldable pub consume_stream : Stream → Result InvokeResponse × List Delta
unfolding drain
consume_stream s = drain start s.chunks s.ending
