-- ===== src/ToolLayer/Registry/Names.antt =====
-- What the Names of tool/registry.go list, and in which order.
use tracklogic_agent.Common.{
  ◌≡◌, ◌↔◌, ◌⊎◌, inl, inr, refl, true, false, Bool-cases, Text, text_eq_iff, List, [], ◌∷◌, is_some,
  Dict, lookup, keys, All, arith,
}
use tracklogic_agent.Interaction.Answers.{Among}
use tracklogic_agent.ToolLayer.Registry.{
  Registry, text_leb, insert_sorted, sort_texts, names, find_tool,
}

text_leb_total : (s t : Text) → text_leb s t ≡ false → text_leb t s ≡ true
unfolding text_leb
text_leb_total [] t h = ground arith
text_leb_total (a ∷ s) [] h = refl
text_leb_total (a ∷ s) (b ∷ t) h = ground (arith, text_leb_total s t)

text_leb_trans : (s t u : Text) → text_leb s t ≡ true → text_leb t u ≡ true → text_leb s u ≡ true
unfolding text_leb
text_leb_trans [] t u h k = refl
text_leb_trans (a ∷ s) [] u h k = ground arith
text_leb_trans (a ∷ s) (b ∷ t) [] h k = ground arith
text_leb_trans (a ∷ s) (b ∷ t) (c ∷ u) h k = ground (arith, text_leb_trans s t u)

-- No text is followed by a smaller one.
abbrev pub IsSorted : List Text → Type 0
IsSorted [] = Unit
IsSorted (s ∷ ss) = All (λ t. text_leb s t ≡ true) ss × IsSorted ss

All-below :
    (s t : Text) (ts : List Text)
    → text_leb s t ≡ true
    → All (λ u. text_leb t u ≡ true) ts
    → All (λ u. text_leb s u ≡ true) ts
All-below s t [] h k = tt
All-below s t (u ∷ us) h k = (text_leb_trans s t u h k.0, All-below s t us h k.1)

All-insert_sorted :
    (s t : Text) (ts : List Text)
    → text_leb s t ≡ true
    → All (λ u. text_leb s u ≡ true) ts
    → All (λ u. text_leb s u ≡ true) (insert_sorted t ts)
unfolding insert_sorted
All-insert_sorted s t [] h k = (h, tt)
All-insert_sorted s t (u ∷ us) h k = elim (Bool-cases (text_leb t u)) [
  | inl below ↦ rw below (h, k)
  | inr above ↦ rw above (k.0, All-insert_sorted s t us h k.1)
]

insert_sorted-IsSorted : (s : Text) (ts : List Text) → IsSorted ts → IsSorted (insert_sorted s ts)
unfolding insert_sorted
insert_sorted-IsSorted s [] h = (tt, tt)
insert_sorted-IsSorted s (t ∷ ts) h = elim (Bool-cases (text_leb s t)) [
  | inl below ↦ rw below ((below, All-below s t ts below h.0), h)
  | inr above ↦
      rw above
        (All-insert_sorted t s ts (text_leb_total s t above) h.0, insert_sorted-IsSorted s ts h.1)
]

sort_texts-IsSorted : (ss : List Text) → IsSorted (sort_texts ss)
unfolding sort_texts
sort_texts-IsSorted [] = tt
sort_texts-IsSorted (s ∷ ss) = insert_sorted-IsSorted s (sort_texts ss) (sort_texts-IsSorted ss)

Among-insert_sorted :
    (u s : Text) (ts : List Text) → Among (insert_sorted s ts) u ↔ ((s ≡ u) ⊎ Among ts u)
unfolding insert_sorted
Among-insert_sorted u s [] = (λ h. h, λ h. h)
Among-insert_sorted u s (t ∷ ts) =
    let ih = Among-insert_sorted u s ts in
    elim (Bool-cases (text_leb s t)) [
      | inl below ↦ rw below (λ h. h, λ h. h)
      | inr above ↦ rw above (λ h. ground (arith, ih.0), λ h. ground (arith, ih.1))
    ]

Among-sort_texts : (u : Text) (ss : List Text) → Among (sort_texts ss) u ↔ Among ss u
unfolding sort_texts
Among-sort_texts u [] = (λ h. h, λ h. h)
Among-sort_texts u (s ∷ ss) =
    let step = Among-insert_sorted u s (sort_texts ss) in
    let ih = Among-sort_texts u ss in
    (λ h. ground (arith, step.0 h, ih.0), λ h. step.1 (ground (arith, ih.1)))

Among-keys : {V : Type 0} (u : Text) (m : Dict V) → Among (keys m) u ↔ (is_some (lookup u m) ≡ true)
unfolding lookup
Among-keys u [] = (λ h. absurd h, λ h. cc)
Among-keys u ((k, v) ∷ m) =
    let ih = Among-keys u m in
    (λ h. ground (arith, text_eq_iff k u, ih.0), λ h. ground (arith, text_eq_iff k u, ih.1))

-- The names of the registered tools come in order, and a name is among them exactly when a tool is
-- found under it.
pub names-IsSorted :
    {T : Type 0} (r : Registry T) (name : Text)
    → IsSorted (names r) × (Among (names r) name ↔ (is_some (find_tool name r) ≡ true))
unfolding names find_tool
names-IsSorted r name =
    let sorted = Among-sort_texts name (keys r) in
    let found = Among-keys name r in
    (sort_texts-IsSorted (keys r), (λ h. found.0 (sorted.0 h), λ h. sorted.1 (found.1 h)))
