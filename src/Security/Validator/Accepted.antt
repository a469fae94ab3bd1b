-- ===== src/Security/Validator/Accepted.antt =====
-- security/validator.go: which inputs the built-in validator accepts.
use tracklogic_agent.Common.{
  ℕ, ◌<◌, ◌≤◌, ◌≡◌, refl, ap, ◌↔◌, ◌⊎◌, inl, inr, Bool, true, false, ◌||◌, ◌&&◌, ◌==◌, ltb, Text,
  byte_len, List, [], ◌∷◌, ◌++◌, Option, none, some, if◌then◌else◌, All, arith,
}
use tracklogic_agent.Types.{GoError}
use tracklogic_agent.Security.Validator.{
  Pattern, DefaultInputValidator, has_prefix, contains, find_pattern, find_word, blocked, injected,
  validate_input,
}

abbrev pub StartsWith : Text → Text → Type 0
StartsWith t w = (rest : Text) × (t ≡ w ++ rest)

abbrev pub Occurs : Text → Text → Type 0
Occurs t w = (before : Text) × StartsWith t (before ++ w)

and_true : (a b : Bool) → (a && b) ≡ true → (a ≡ true) × (b ≡ true)
and_true true b h = (refl, h)
and_true false b h = cc h

or_true : (a b : Bool) → (a || b) ≡ true → (a ≡ true) ⊎ (b ≡ true)
or_true true b h = inl refl
or_true false b h = inr h

same_code : (b c : ℕ) → (b == c) ≡ true → b ≡ c
same_code b c h = ground arith

has_prefix-StartsWith : (t w : Text) → (has_prefix t w ≡ true) ↔ StartsWith t w
unfolding has_prefix
has_prefix-StartsWith t [] = (λ h. (t, refl), λ h. refl)
has_prefix-StartsWith [] (c ∷ w) = (λ h. cc h, λ (rest, h). cc h)
has_prefix-StartsWith (b ∷ t) (c ∷ w) =
    let ih = has_prefix-StartsWith t w in
    (
      λ h.
          let (e, more) = and_true (b == c) (has_prefix t w) h in
          let (rest, eq) = ih.0 more in let same = same_code b c e in (rest, cc (same, eq)),
      λ (rest, h).
          let more = ih.1 (rest, cc h) in let same : b ≡ c = cc h in ground (arith, more, same),
    )

or_left : (a b : Bool) → a ≡ true → (a || b) ≡ true
or_left true b h = refl
or_left false b h = cc h

or_right : (a b : Bool) → b ≡ true → (a || b) ≡ true
or_right true b h = refl
or_right false b h = h

contains-Occurs_if : (t w before rest : Text) → t ≡ (before ++ w) ++ rest → contains t w ≡ true
unfolding contains
contains-Occurs_if [] w [] rest h = (has_prefix-StartsWith [] w).1 (rest, h)
contains-Occurs_if [] w (d ∷ before) rest h = cc h
contains-Occurs_if (c ∷ t) w [] rest h =
    or_left (has_prefix (c ∷ t) w) (contains t w) ((has_prefix-StartsWith (c ∷ t) w).1 (rest, h))
contains-Occurs_if (c ∷ t) w (d ∷ before) rest h =
    or_right (has_prefix (c ∷ t) w) (contains t w) (contains-Occurs_if t w before rest (cc h))

contains-Occurring : (t w : Text) → contains t w ≡ true → Occurs t w
unfolding contains
contains-Occurring [] w h = ([], (has_prefix-StartsWith [] w).0 h)
contains-Occurring (c ∷ t) w h = elim (or_true (has_prefix (c ∷ t) w) (contains t w) h) [
  | inl e ↦ ([], (has_prefix-StartsWith (c ∷ t) w).0 e)
  | inr e ↦
      let (before, (rest, eq)) = contains-Occurring t w e in
      (c ∷ before, (rest, ap (λ u. c ∷ u) eq))
]

not_true : (b : Bool) → ¬ (b ≡ true) → b ≡ false
not_true true h = absurd (h refl)
not_true false h = refl

one_find :
    (b : Bool) (t : Text) (later : Option Text)
    → ((if b then some t else later) ≡ none) ↔ ((b ≡ false) × (later ≡ none))
one_find true t later = (λ h. cc h, λ h. cc h.0)
one_find false t later = (λ h. (refl, h), λ h. h.1)

contains-Occurs : (t w : Text) → (contains t w ≡ false) ↔ (¬ Occurs t w)
contains-Occurs t w = (
  λ h (before, (rest, eq)). cc (h, contains-Occurs_if t w before rest eq),
  λ h. not_true (contains t w) (λ e. h (contains-Occurring t w e)),
)

find_word-none : (ws : List Text) (t : Text) → (find_word ws t ≡ none) ↔ All (λ w. ¬ Occurs t w) ws
unfolding find_word
find_word-none [] t = (λ h. tt, λ h. refl)
find_word-none (w ∷ ws) t =
    let step = one_find (contains t w) w (find_word ws t) in
    let here = contains-Occurs t w in
    let ih = find_word-none ws t in
    (λ h. (here.0 (step.0 h).0, ih.0 (step.0 h).1), λ h. step.1 (here.1 h.0, ih.1 h.1))

find_pattern-none :
    (ps : List Pattern) (t : Text)
    → (find_pattern ps t ≡ none) ↔ All (λ (p : Pattern). p.matches t ≡ false) ps
unfolding find_pattern
find_pattern-none [] t = (λ h. tt, λ h. refl)
find_pattern-none (p ∷ ps) t =
    let step = one_find (p.matches t) p.text (find_pattern ps t) in
    let ih = find_pattern-none ps t in
    (λ h. ((step.0 h).0, ih.0 (step.0 h).1), λ h. step.1 (h.0, ih.1 h.1))

guarded :
    (a b : Bool) (e f : GoError) (x : Option GoError)
    → ((if a then some e else if b then some f else x) ≡ none)
      ↔ ((a ≡ false) × ((b ≡ false) × (x ≡ none)))
guarded true b e f x = (λ h. cc h, λ h. cc h.0)
guarded false true e f x = (λ h. cc h, λ h. cc h.1.0)
guarded false false e f x = (λ h. (refl, (refl, h)), λ h. h.1.1)

not_zero : (n : ℕ) → ((n == 0) ≡ false) ↔ (0 < n)
not_zero n = (λ h. ground arith, λ h. ground arith)

not_more : (m n : ℕ) → (ltb m n ≡ false) ↔ (n ≤ m)
not_more m n = (λ h. ground arith, λ h. ground arith)

map_sum : {A : Type 0} → {B : Type 0} → {C : Type 0} → (B → C) → A ⊎ B → A ⊎ C
map_sum f (inl a) = inl a
map_sum f (inr b) = inr (f b)

-- An input that is not empty and not too long in bytes, with no blocked word in it, and, where this is
-- checked, matched by no pattern of an injection.
pub record IsClean (lower : Text → Text) (injections : List Pattern) (v : DefaultInputValidator)
    (input : Text) : Type 0 where
  pub full : 0 < byte_len input
  pub short : byte_len input ≤ v.max_length
  pub allowed : All (λ w. ¬ Occurs (lower input) w) v.blocked_words
  pub harmless :
      (v.enable_injection_check ≡ false) ⊎ All (λ (p : Pattern). p.matches input ≡ false) injections

module _ (quote lower : Text → Text) (itoa : ℕ → Text) (injections : List Pattern) where
  checked-none :
      (v : DefaultInputValidator) (input : Text) (check : Bool) (p word : Option Text)
      → ((if check
            then injected quote lower itoa injections p (blocked quote lower itoa injections word)
            else blocked quote lower itoa injections word)
          ≡ none)
        ↔ (((check ≡ false) ⊎ (p ≡ none)) × (word ≡ none))
  checked-none v input true none none = (λ h. (inr refl, refl), λ h. refl)
  checked-none v input true none (some w) = (λ h. cc h, λ h. cc h.1)
  checked-none v input true (some q) word = (λ h. cc h, λ h. ground arith)
  checked-none v input false p none = (λ h. (inl refl, refl), λ h. refl)
  checked-none v input false p (some w) = (λ h. cc h, λ h. cc h.1)

  -- DefaultInputValidator.Validate accepts an input exactly when it is clean: not empty, not longer in
  -- bytes than the limit, without a blocked word in its lower case, and, where injections are looked
  -- for, matched by none of their patterns. The patterns and the lower case are arbitrary.
  pub validate_input-IsClean :
      (v : DefaultInputValidator) (input : Text)
      → (validate_input quote lower itoa injections v input ≡ none)
        ↔ IsClean lower injections v input
  unfolding validate_input
  validate_input-IsClean v input =
      let words = find_word-none v.blocked_words (lower input) in
      let patterns = find_pattern-none injections input in
      let last =
        checked-none v input v.enable_injection_check (find_pattern injections input)
          (find_word v.blocked_words (lower input)) in
      let first = guarded (byte_len input == 0) (ltb v.max_length (byte_len input)) _ _ _ in
      (
        λ h.
            let (some_byte, (fits, more)) = first.0 h in
            let (checked, clean) = last.0 more in
            record {
              full = (not_zero _).0 some_byte;
              short = (not_more _ _).0 fits;
              allowed = words.0 clean;
              harmless = map_sum patterns.0 checked;
            },
        λ h. first.1 (
          (not_zero _).1 h.full,
          ((not_more _ _).1 h.short, last.1 (map_sum patterns.1 h.harmless, words.1 h.allowed)),
        ),
      )
