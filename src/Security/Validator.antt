-- ===== src/Security/Validator.antt =====
-- security/validator.go: the validators of input and output. A regular expression is a test on texts.
-- strings.ToLower and the verbs %q and %d are parameters; the length of a string counts its bytes.
pub mod Accepted
use tracklogic_agent.Common.{
  ℕ, Bool, true, false, ◌&&◌, ◌||◌, ltb, ◌==◌, Text, codes, text_eq, byte_len, List, [], ◌∷◌, ◌++◌,
  Option, none, some, if◌then◌else◌, ℤ, pos, pos_part, leb_ℤ,
}
use tracklogic_agent.Types.{GoError, plain}

-- A compiled pattern, with its MatchString.
pub record Pattern : Type 0 where
  pub text : Text
  pub matches : Text → Bool

pub record DefaultInputValidator : Type 0 where
  pub max_length : ℕ
  pub blocked_words : List Text
  pub enable_injection_check : Bool

pub record DefaultOutputValidator : Type 0 where
  pub max_length : ℕ

abbrev pub positive_or : ℕ → ℤ → ℕ
positive_or n z = if leb_ℤ z (pos 0) then n else pos_part z

-- NewInputValidatorWithConfig
unfoldable pub new_input_validator : ℤ → Bool → DefaultInputValidator
new_input_validator max_length check = record {
  max_length = positive_or 10000 max_length;
  enable_injection_check = check;
  blocked_words = codes "<script>" ∷ codes "javascript:" ∷ codes "onerror=" ∷ codes "onload=" ∷ [];
}

-- NewOutputValidatorWithMaxLength
unfoldable pub new_output_validator : ℤ → DefaultOutputValidator
new_output_validator max_length = record { max_length = positive_or 50000 max_length }

-- strings.HasPrefix and strings.Contains
unfoldable pub has_prefix : Text → Text → Bool
has_prefix t [] = true
has_prefix [] (c ∷ w) = false
has_prefix (b ∷ t) (c ∷ w) = b == c && has_prefix t w

unfoldable pub contains : Text → Text → Bool
unfolding has_prefix
contains [] w = has_prefix [] w
contains (c ∷ t) w = has_prefix (c ∷ t) w || contains t w

-- The first pattern that matches, and the first word that occurs.
unfoldable pub find_pattern : List Pattern → Text → Option Text
find_pattern [] t = none
find_pattern (p ∷ ps) t =
    let later = find_pattern ps t in if p.matches t then some p.text else later

unfoldable pub find_word : List Text → Text → Option Text
unfolding contains
find_word [] t = none
find_word (w ∷ ws) t = let later = find_word ws t in if contains t w then some w else later

abbrev too_long : Text → (ℕ → Text) → ℕ → GoError
too_long what itoa n =
    plain (what ++ (codes " exceeds max length of " ++ (itoa n ++ codes " characters")))

module _ (quote lower : Text → Text) (itoa : ℕ → Text) (injections : List Pattern) where
  abbrev pub blocked : Option Text → Option GoError
  blocked none = none
  blocked (some word) = some (plain (codes "blocked content detected: " ++ quote word))

  abbrev pub injected : Option Text → Option GoError → Option GoError
  injected none next = next
  injected (some pattern') next =
      some (plain (codes "potential prompt injection detected: matched pattern " ++ quote pattern'))

  -- DefaultInputValidator.Validate
  unfoldable pub validate_input : DefaultInputValidator → Text → Option GoError
  unfolding find_pattern find_word
  validate_input v input =
      let word = blocked (find_word v.blocked_words (lower input)) in
      if byte_len input == 0
      then some (plain (codes "empty input"))
      else if ltb v.max_length (byte_len input)
      then some (too_long (codes "input") itoa v.max_length)
      else if v.enable_injection_check
      then injected (find_pattern injections input) word
      else word

-- DefaultOutputValidator.Validate
unfoldable pub validate_output : (ℕ → Text) → DefaultOutputValidator → Text → Option GoError
validate_output itoa v output =
    if ltb v.max_length (byte_len output)
    then some (too_long (codes "output") itoa v.max_length)
    else none
