-- ===== src/Engine/Stream/Content.antt =====
-- What engine/stream.go makes of a whole stream.
use tracklogic_agent.Common.{
  ℕ, ◌+◌, ◌≡◌, refl, sym, ap, ◌∙◌, inl, inr, Bool-cases, Option-cases, true, false, Bool, Text,
  List, [], ◌∷◌, ◌++◌, subst, append_assoc, append-nil, length, Option, none, some, arith, lookup,
  Dict,
}
use tracklogic_agent.Types.{ToolCall, GoError, Result, ok, err}
use tracklogic_agent.Model.{InvokeResponse, ResponseChunk}
use tracklogic_agent.Engine.Stream.{
  Stream, Partial, Delta, content_delta, reasoning_delta, start, absorb, finish, deltas_of,
  delta_of, drain, consume_stream, merge_option,
}
use tracklogic_agent.Engine.Stream.Calls.{argument_size, IsIndexed, merge_tool_call-Merges}

-- The visible text among the deltas, and the reasoning among them.
abbrev pub content_of : List Delta → Text
content_of [] = []
content_of (content_delta s ∷ ds) = s ++ content_of ds
content_of (reasoning_delta s ∷ ds) = content_of ds

abbrev pub reasoning_of : List Delta → Text
reasoning_of [] = []
reasoning_of (content_delta s ∷ ds) = reasoning_of ds
reasoning_of (reasoning_delta s ∷ ds) = s ++ reasoning_of ds

content_of-deltas :
    (c r : Text) (ds : List Delta)
    → content_of ((delta_of content_delta c ++ delta_of reasoning_delta r) ++ ds)
      ≡ c ++ content_of ds
content_of-deltas [] [] ds = refl
content_of-deltas [] (b ∷ r) ds = refl
content_of-deltas (a ∷ c) [] ds = refl
content_of-deltas (a ∷ c) (b ∷ r) ds = refl

reasoning_of-deltas :
    (c r : Text) (ds : List Delta)
    → reasoning_of ((delta_of content_delta c ++ delta_of reasoning_delta r) ++ ds)
      ≡ r ++ reasoning_of ds
reasoning_of-deltas [] [] ds = refl
reasoning_of-deltas [] (b ∷ r) ds = refl
reasoning_of-deltas (a ∷ c) [] ds = refl
reasoning_of-deltas (a ∷ c) (b ∷ r) ds = refl

-- The response holds what was gathered before and what the callbacks were given since.
abbrev pub Streamed : Partial → Result InvokeResponse × List Delta → Type 0
Streamed p (err e, ds) = Unit
Streamed p (ok r, ds) =
    (r.content ≡ p.content ++ content_of ds) × (r.reasoning ≡ p.reasoning ++ reasoning_of ds)

Streamed-absorb :
    (p : Partial) (chunk : ResponseChunk) (out : Result InvokeResponse × List Delta)
    → Streamed (absorb p chunk) out
    → Streamed p (out.0, deltas_of chunk ++ out.1)
unfolding absorb
Streamed-absorb p chunk (err e, ds) h = tt
Streamed-absorb p chunk (ok r, ds) h = (
  h.0
      ∙ append_assoc p.content chunk.content (content_of ds)
      ∙ ap (λ s. p.content ++ s) (sym (content_of-deltas chunk.content chunk.reasoning ds)),
  h.1
      ∙ append_assoc p.reasoning chunk.reasoning (reasoning_of ds)
      ∙ ap (λ s. p.reasoning ++ s) (sym (reasoning_of-deltas chunk.content chunk.reasoning ds)),
)

finish-Streamed : (p : Partial) → Streamed p (ok (finish p), [])
unfolding finish
finish-Streamed p = (sym (append-nil p.content), sym (append-nil p.reasoning))

drain-Streamed :
    (p : Partial) (chunks : List ResponseChunk) (ending : Option GoError)
    → Streamed p (drain p chunks ending)
unfolding drain
drain-Streamed p [] none = finish-Streamed p
drain-Streamed p [] (some e) = tt
drain-Streamed p (chunk ∷ chunks) ending = elim (Option-cases chunk.error) [
  | inr (e, failed) ↦ rw (failed, drain) tt
  | inl fine ↦ elim (Bool-cases chunk.done) [
    | inl last ↦
        rw (fine, last, drain)
          (subst (λ ds. Streamed p (ok (finish (absorb p chunk)), ds))
            (append-nil (deltas_of chunk))
            (Streamed-absorb p chunk (ok (finish (absorb p chunk)), [])
              (finish-Streamed (absorb p chunk))))
    | inr more ↦
        rw (fine, more, drain)
          (Streamed-absorb p chunk (drain (absorb p chunk) chunks ending)
            (drain-Streamed (absorb p chunk) chunks ending))
  ]
]

-- A stream that ends well yields the response whose visible text and reasoning are exactly what the
-- callbacks were given, piece by piece and in order.
pub consume_stream-content :
    (s : Stream) (r : InvokeResponse) (ds : List Delta)
    → consume_stream s ≡ (ok r, ds)
    → (r.content ≡ content_of ds) × (r.reasoning ≡ reasoning_of ds)
unfolding consume_stream
consume_stream-content s r ds e = subst (Streamed start) e (drain-Streamed start s.chunks s.ending)

-- The argument bytes that the stream delivers before it ends.
abbrev pub fragment_size : Option ToolCall → ℕ
fragment_size none = 0
fragment_size (some d) = length d.function.arguments

abbrev pub after_chunk : Option GoError → Bool → ℕ → ℕ
after_chunk (some e) done n = 0
after_chunk none true n = 0
after_chunk none false n = n

abbrev pub delivered : List ResponseChunk → ℕ
delivered [] = 0
delivered (chunk ∷ chunks) =
    fragment_size chunk.tool_call + after_chunk chunk.error chunk.done (delivered chunks)

record Assembled (p q : Partial) (n : ℕ) : Type 0 where
  indexed : IsIndexed q.tool_calls q.tool_index
  conserved : argument_size q.tool_calls ≡ argument_size p.tool_calls + n

option-Assembled :
    (calls : List ToolCall) (index : Dict ℕ) (delta : Option ToolCall)
    → IsIndexed calls index
    → (IsIndexed (merge_option calls index delta).0 (merge_option calls index delta).1)
      × (argument_size (merge_option calls index delta).0
          ≡ argument_size calls + fragment_size delta)
option-Assembled calls index none v = (v, omega arith)
option-Assembled calls index (some d) v =
    let m = merge_tool_call-Merges calls index d v in (m.indexed, m.conserved)

absorb-Assembled :
    (p : Partial) (chunk : ResponseChunk)
    → IsIndexed p.tool_calls p.tool_index
    → Assembled p (absorb p chunk) (fragment_size chunk.tool_call)
unfolding absorb
absorb-Assembled p chunk v =
    let h = option-Assembled p.tool_calls p.tool_index chunk.tool_call v in
    record { indexed = h.0; conserved = h.1 }

abbrev Holds : ℕ → Result InvokeResponse → Type 0
Holds n (err e) = Unit
Holds n (ok r) = argument_size r.tool_calls ≡ n

drain-Holds :
    (p : Partial) (chunks : List ResponseChunk) (ending : Option GoError)
    → IsIndexed p.tool_calls p.tool_index
    → Holds (argument_size p.tool_calls + delivered chunks) (drain p chunks ending).0
unfolding drain finish
drain-Holds p [] none v = omega arith
drain-Holds p [] (some e) v = tt
drain-Holds p (chunk ∷ chunks) ending v = elim (Option-cases chunk.error) [
  | inr (e, failed) ↦ rw (failed, drain) tt
  | inl fine ↦ elim (Bool-cases chunk.done) [
    | inl last ↦ rw (fine, last, drain) (omega (arith, (absorb-Assembled p chunk v).conserved))
    | inr more ↦
        rw (fine, more, drain)
          (subst (λ n. Holds n (drain (absorb p chunk) chunks ending).0)
            (omega (arith, (absorb-Assembled p chunk v).conserved))
            (drain-Holds (absorb p chunk) chunks ending (absorb-Assembled p chunk v).indexed))
  ]
]

-- The tool calls of a stream that ends well hold as many argument characters as its fragments
-- delivered: merging the fragments loses none and repeats none.
pub consume_stream-arguments :
    (s : Stream) (r : InvokeResponse) (ds : List Delta)
    → consume_stream s ≡ (ok r, ds)
    → argument_size r.tool_calls ≡ delivered s.chunks
unfolding consume_stream lookup
consume_stream-arguments s r ds e =
    subst (λ (out : Result InvokeResponse × List Delta). Holds (delivered s.chunks) out.0) e
      (subst (λ n. Holds n (drain start s.chunks s.ending).0) (omega arith)
        (drain-Holds start s.chunks s.ending (λ k i h. cc h)))
