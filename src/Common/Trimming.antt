-- ===== src/Common/Trimming.antt =====
-- What strings.TrimSpace leaves has no blanks at its ends, so that trimming it again changes nothing.
use mathlib.Core.Path.{◌≡◌, refl, sym, ap, ◌∙◌, subst}
use mathlib.Core.Logic.{inl, inr}
use mathlib.Core.Bool.{false}
use mathlib.Core.List.{[], ◌∷◌, ◌++◌, reverse, reverse-append, reverse-reverse}
use tracklogic_agent.Common.Tests.{Bool-cases, if◌then◌else◌}
use tracklogic_agent.Common.Strings.{Text, is_space, trim_left, trim_space}

-- No blank stands first.
abbrev IsFlush : Text → Type 0
IsFlush [] = Unit
IsFlush (c ∷ s) = is_space c ≡ false

trim_left-IsFlush : (s : Text) → IsFlush (trim_left s)
unfolding trim_left
trim_left-IsFlush [] = tt
trim_left-IsFlush (c ∷ s) = elim (Bool-cases (is_space c)) [
  | inl blank ↦
      subst (λ (b : _). IsFlush (if b then trim_left s else c ∷ s)) (sym blank)
        (trim_left-IsFlush s)
  | inr other ↦ subst (λ (b : _). IsFlush (if b then trim_left s else c ∷ s)) (sym other) other
]

trim_left-flush : (s : Text) → IsFlush s → trim_left s ≡ s
unfolding trim_left
trim_left-flush [] h = refl
trim_left-flush (c ∷ s) h = rw h

IsFlush-prefix : (s rest : Text) → IsFlush (s ++ rest) → IsFlush s
IsFlush-prefix [] rest h = tt
IsFlush-prefix (c ∷ s) rest h = h

-- What is trimmed off the front.
abbrev blanks : Text → Text
blanks [] = []
blanks (c ∷ s) = if is_space c then c ∷ blanks s else []

blanks-trim_left : (s : Text) → blanks s ++ trim_left s ≡ s
unfolding trim_left
blanks-trim_left [] = refl
blanks-trim_left (c ∷ s) = elim (Bool-cases (is_space c)) [
  | inl blank ↦ rw blank (ap (λ t. c ∷ t) (blanks-trim_left s))
  | inr other ↦ rw other
]

-- Trimming the end leaves a prefix.
trim_end-prefix : (s : Text) → s ≡ reverse (trim_left (reverse s)) ++ reverse (blanks (reverse s))
trim_end-prefix s =
    sym (reverse-reverse s)
    ∙ ap reverse (sym (blanks-trim_left (reverse s)))
    ∙ reverse-append (blanks (reverse s)) (trim_left (reverse s))

trim_space-IsFlush : (s : Text) → IsFlush (trim_space s)
unfolding trim_space
trim_space-IsFlush s =
    let t = trim_left s in
    IsFlush-prefix (reverse (trim_left (reverse t))) (reverse (blanks (reverse t)))
      (subst IsFlush (trim_end-prefix t) (trim_left-IsFlush s))

pub trim_space-trim_space : (s : Text) → trim_space (trim_space s) ≡ trim_space s
unfolding trim_space
trim_space-trim_space s =
    let t = reverse (trim_left s) in
    ap (λ u. reverse (trim_left (reverse u)))
      (trim_left-flush (reverse (trim_left t)) (trim_space-IsFlush s))
    ∙ ap (λ u. reverse (trim_left u)) (reverse-reverse (trim_left t))
    ∙ ap reverse (trim_left-flush (trim_left t) (trim_left-IsFlush t))
