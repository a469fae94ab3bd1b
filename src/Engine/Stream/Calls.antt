-- ===== src/Engine/Stream/Calls.antt =====
-- The tool calls that engine/stream.go assembles from their fragments.
use tracklogic_agent.Common.{
  ℕ, zero, suc, ◌+◌, ◌<◌, ◌≡◌, refl, sym, ap, ◌∙◌, inl, inr, Bool-cases, Option-cases, true, false,
  subst, Text, text_eq, text_eq_iff, is_empty, List, [], ◌∷◌, ◌++◌, length, length-append,
  get_elem?, some, Dict, lookup, insert, lookup-insert, arith,
}
use tracklogic_agent.Types.{ToolCall}
use tracklogic_agent.Engine.Stream.{override, merge_into, merge_at, merge_last, merge_tool_call}

-- The fragments' argument bytes that a list of calls holds.
abbrev pub argument_size : List ToolCall → ℕ
argument_size [] = 0
argument_size (c ∷ cs) = length c.function.arguments + argument_size cs

argument_size-append :
    (cs ds : List ToolCall) → argument_size (cs ++ ds) ≡ argument_size cs + argument_size ds
argument_size-append [] ds = omega arith
argument_size-append (c ∷ cs) ds = omega (arith, argument_size-append cs ds)

length-merge_at : (cs : List ToolCall) (i : ℕ) (d : ToolCall) → length (merge_at cs i d) ≡ length cs
unfolding merge_at
length-merge_at [] i d = refl
length-merge_at (c ∷ cs) zero d = refl
length-merge_at (c ∷ cs) (suc i) d = ap suc (length-merge_at cs i d)

argument_size-merge_at :
    (cs : List ToolCall) (i : ℕ) (d : ToolCall)
    → i < length cs
    → argument_size (merge_at cs i d) ≡ argument_size cs + length d.function.arguments
unfolding merge_at
argument_size-merge_at [] i d h = elim h [ ]
argument_size-merge_at (c ∷ cs) zero d h =
    omega (arith, length-append c.function.arguments d.function.arguments)
argument_size-merge_at (c ∷ cs) (suc i) d h =
    omega (arith, argument_size-merge_at cs i d (omega arith))

-- Every identifier in the index is that of the call at its position.
abbrev pub IsIndexed : List ToolCall → Dict ℕ → Type 0
IsIndexed calls index =
    (k : Text) (i : ℕ)
    → lookup k index ≡ some i
    → (c : ToolCall) × (get_elem? calls i ≡ some c) × (c.id ≡ k)

get_elem?-append_left :
    (cs ds : List ToolCall) (j : ℕ) (c : ToolCall)
    → get_elem? cs j ≡ some c
    → get_elem? (cs ++ ds) j ≡ some c
get_elem?-append_left [] ds j c e = cc
get_elem?-append_left (b ∷ cs) ds zero c e = e
get_elem?-append_left (b ∷ cs) ds (suc j) c e = get_elem?-append_left cs ds j c e

get_elem?-append_end :
    (cs : List ToolCall) (d : ToolCall) → get_elem? (cs ++ d ∷ []) (length cs) ≡ some d
get_elem?-append_end [] d = refl
get_elem?-append_end (b ∷ cs) d = get_elem?-append_end cs d

get_elem?-lt-length :
    (cs : List ToolCall) (j : ℕ) (c : ToolCall) → get_elem? cs j ≡ some c → j < length cs
get_elem?-lt-length [] j c e = cc
get_elem?-lt-length (b ∷ cs) zero c e = omega arith
get_elem?-lt-length (b ∷ cs) (suc j) c e = omega (arith, get_elem?-lt-length cs j c e)

-- A merge that keeps the identifier of the call at `i` keeps those of all calls.
abbrev KeepsId : ToolCall → ToolCall → Type 0
KeepsId d c = override c.id d.id ≡ c.id

merge_at_id :
    (cs : List ToolCall) (i : ℕ) (d : ToolCall)
    → ((c : ToolCall) → get_elem? cs i ≡ some c → KeepsId d c)
    → (j : ℕ) (c : ToolCall) → get_elem? cs j ≡ some c
    → (c' : ToolCall) × (get_elem? (merge_at cs i d) j ≡ some c') × (c'.id ≡ c.id)
unfolding merge_at merge_into
merge_at_id [] i d keeps j c e = cc
merge_at_id (b ∷ cs) zero d keeps zero c e = (merge_into b d, refl, ground (arith, keeps b refl))
merge_at_id (b ∷ cs) zero d keeps (suc j) c e = (c, e, refl)
merge_at_id (b ∷ cs) (suc i) d keeps zero c e = (c, e, refl)
merge_at_id (b ∷ cs) (suc i) d keeps (suc j) c e = merge_at_id cs i d keeps j c e

merge_at-IsIndexed :
    (cs : List ToolCall) (index : Dict ℕ) (i : ℕ) (d : ToolCall)
    → ((c : ToolCall) → get_elem? cs i ≡ some c → KeepsId d c)
    → IsIndexed cs index
    → IsIndexed (merge_at cs i d) index
merge_at-IsIndexed cs index i d keeps v k j e =
    let (c, at, same) = v k j e in
    let (c', at', same') = merge_at_id cs i d keeps j c at in (c', at', same' ∙ same)

append-IsIndexed :
    (cs : List ToolCall) (index : Dict ℕ) (d : ToolCall)
    → IsIndexed cs index
    → IsIndexed (cs ++ d ∷ []) (insert d.id (length cs) index)
append-IsIndexed cs index d v k j e = elim (Bool-cases (text_eq d.id k)) [
  | inl hit ↦ (
    d,
    subst (λ n. get_elem? (cs ++ d ∷ []) n ≡ some d)
        (ground (arith, lookup-insert d.id k (length cs) index)) (get_elem?-append_end cs d),
    (text_eq_iff d.id k).0 hit,
  )
  | inr miss ↦
      let (c, at, same) = v k j (ground (arith, lookup-insert d.id k (length cs) index)) in
      (c, get_elem?-append_left cs (d ∷ []) j c at, same)
]

override_self : (s t : Text) → is_empty t ≡ false → s ≡ t → override s t ≡ s
override_self s [] h e = cc
override_self s (c ∷ t) h e = sym e

override-empty : (s t : Text) → is_empty t ≡ true → override s t ≡ s
override-empty s [] h = refl
override-empty s (c ∷ t) h = cc

merge_last-IsIndexed :
    (cs : List ToolCall) (index : Dict ℕ) (d : ToolCall)
    → is_empty d.id ≡ true
    → IsIndexed cs index
    → IsIndexed (merge_last cs d) index
unfolding merge_last
merge_last-IsIndexed [] index d h v = λ k i e. let (c, at, same) = v k i e in cc at
merge_last-IsIndexed (c ∷ cs) index d h v =
    merge_at-IsIndexed (c ∷ cs) index (length cs) d (λ b _. override-empty b.id d.id h) v

argument_size-merge_last :
    (cs : List ToolCall) (d : ToolCall)
    → argument_size (merge_last cs d) ≡ argument_size cs + length d.function.arguments
unfolding merge_last
argument_size-merge_last [] d = omega arith
argument_size-merge_last (c ∷ cs) d = argument_size-merge_at (c ∷ cs) (length cs) d (omega arith)

-- Merging a fragment keeps the index true to the calls, and adds exactly the fragment's argument
-- bytes: none is lost or written twice.
pub record Merges (calls : List ToolCall) (index : Dict ℕ) (delta : ToolCall) : Type 0 where
  pub indexed :
      IsIndexed (merge_tool_call calls index delta).0 (merge_tool_call calls index delta).1
  pub conserved :
      argument_size (merge_tool_call calls index delta).0
      ≡ argument_size calls + length delta.function.arguments

pub merge_tool_call-Merges :
    (calls : List ToolCall) (index : Dict ℕ) (delta : ToolCall)
    → IsIndexed calls index
    → Merges calls index delta
unfolding merge_tool_call
merge_tool_call-Merges calls index delta v = elim (Bool-cases (is_empty delta.id)) [
  | inl e ↦ record {
    indexed = rw (e, merge_tool_call) (merge_last-IsIndexed calls index delta e v);
    conserved = rw (e, merge_tool_call) (argument_size-merge_last calls delta);
  }
  | inr n ↦ elim (Option-cases (lookup delta.id index)) [
    | inl fresh ↦ record {
      indexed = rw (n, fresh, merge_tool_call) (append-IsIndexed calls index delta v);
      conserved =
          rw (n, fresh, merge_tool_call) (omega (arith, argument_size-append calls (delta ∷ [])));
    }
    | inr (i, old) ↦
        let (c, at, same) = v delta.id i old in
        record {
          indexed =
              rw (n, old, merge_tool_call)
                (merge_at-IsIndexed calls index i delta
                  (λ b e. override_self b.id delta.id n (ground (arith, same, e, at))) v);
          conserved =
              rw (n, old, merge_tool_call)
                (argument_size-merge_at calls i delta (get_elem?-lt-length calls i c at));
        }
  ]
]
