-- ===== src/ToolLayer/Validation/Conformity.antt =====
-- Which arguments pass the Validate of tool/interface.go.
use tracklogic_agent.Common.{
  ◌≡◌, ◌↔◌, ◌⊎◌, inl, inr, refl, Bool, true, false, Text, codes, text_eq, text_eq_iff, is_empty,
  List, [], ◌∷◌, Option, none, some, if◌then◌else◌, Dict, lookup, All, arith, Bool-cases,
}
use tracklogic_agent.Interaction.Answers.{Among, member-Among}
use tracklogic_agent.ToolLayer.Validation.{
  Value, nil, other, text, float64, float32, machine_integer, boolean, object, array, ToolParameter,
  Problem, unsupported_type, ValidationError, is_text, is_boolean, is_object, is_array, is_number,
  is_integer, unless, validate_parameter_type, is_choice, has_choices, value_problem,
  parameter_problem, first_problem, validate_arguments,
}

-- A value of the type that a parameter's schema names.
abbrev pub HasType : Text → Value → Type 0
HasType kind v =
    (is_empty kind ≡ true)
    ⊎ (kind ≡ codes "any")
    ⊎ ((kind ≡ codes "string") × (is_text v ≡ true))
    ⊎ ((kind ≡ codes "number") × (is_number v ≡ true))
    ⊎ ((kind ≡ codes "integer") × (is_integer v ≡ true))
    ⊎ ((kind ≡ codes "boolean") × (is_boolean v ≡ true))
    ⊎ ((kind ≡ codes "object") × (is_object v ≡ true))
    ⊎ ((kind ≡ codes "array") × (is_array v ≡ true))

unless-none : (kind : Text) (b : Bool) → (unless kind b ≡ none) ↔ (b ≡ true)
unless-none kind true = (λ h. refl, λ h. refl)
unless-none kind false = (λ h. cc, λ h. cc)

-- One more type that is checked before the others.
case-HasType :
    (kind name : Text) (b : Bool) (rest : Option Problem) (R : Type 0)
    → ((rest ≡ none) → R)
    → (if text_eq kind name then unless kind b else rest) ≡ none
    → ((kind ≡ name) × (b ≡ true)) ⊎ R
case-HasType kind name b rest R k h = elim (Bool-cases (text_eq kind name)) [
  | inl hit ↦ inl ((text_eq_iff kind name).0 hit, (unless-none kind b).0 (ground arith))
  | inr miss ↦ inr (k (ground arith))
]

type-HasType : (kind : Text) (v : Value) → validate_parameter_type kind v ≡ none → HasType kind v
unfolding validate_parameter_type
type-HasType kind v h = elim (Bool-cases (is_empty kind)) [
  | inl empty ↦ inl empty
  | inr filled ↦ inr (elim (Bool-cases (text_eq kind (codes "any"))) [
    | inl hit ↦ inl ((text_eq_iff kind (codes "any")).0 hit)
    | inr miss ↦ inr (
        case-HasType kind (codes "string") (is_text v) _ _
          (λ h1.
            case-HasType kind (codes "number") (is_number v) _ _
              (λ h2.
                case-HasType kind (codes "integer") (is_integer v) _ _
                  (λ h3.
                    case-HasType kind (codes "boolean") (is_boolean v) _ _
                      (λ h4.
                        case-HasType kind (codes "object") (is_object v) _ _
                          (λ h5. last kind (is_array v) h5) h4)
                      h3)
                  h2)
              h1)
          (ground arith))
  ])
]
  where
    last :
        (kind : Text) (b : Bool)
        → (if text_eq kind (codes "array") then unless kind b else some (unsupported_type kind))
          ≡ none
        → (kind ≡ codes "array") × (b ≡ true)
    last kind b h = elim (Bool-cases (text_eq kind (codes "array"))) [
      | inl hit ↦ ((text_eq_iff kind (codes "array")).0 hit, (unless-none kind b).0 (ground arith))
      | inr miss ↦ ground arith
    ]

HasType-type : (kind : Text) (v : Value) → HasType kind v → validate_parameter_type kind v ≡ none
unfolding validate_parameter_type text_eq
HasType-type kind v (inl e) = ground arith
HasType-type kind v (inr (inl e)) = rw e refl
HasType-type kind v (inr (inr (inl (e, b)))) = rw (e, b) refl
HasType-type kind v (inr (inr (inr (inl (e, b))))) = rw (e, b) refl
HasType-type kind v (inr (inr (inr (inr (inl (e, b)))))) = rw (e, b) refl
HasType-type kind v (inr (inr (inr (inr (inr (inl (e, b))))))) = rw (e, b) refl
HasType-type kind v (inr (inr (inr (inr (inr (inr (inl (e, b)))))))) = rw (e, b) refl
HasType-type kind v (inr (inr (inr (inr (inr (inr (inr (e, b)))))))) = rw (e, b) refl

-- One of the texts of an enumeration.
abbrev pub IsChoice : List Text → Value → Type 0
IsChoice choices (text s) = Among choices s
IsChoice choices _ = ⊥

is_choice-IsChoice : (cs : List Text) (v : Value) → (is_choice cs v ≡ true) ↔ IsChoice cs v
is_choice-IsChoice cs (text s) = member-Among s cs
is_choice-IsChoice cs nil = (λ h. cc, λ h. absurd h)
is_choice-IsChoice cs other = (λ h. cc, λ h. absurd h)
is_choice-IsChoice cs (float64 x) = (λ h. cc, λ h. absurd h)
is_choice-IsChoice cs (float32 x) = (λ h. cc, λ h. absurd h)
is_choice-IsChoice cs (machine_integer n) = (λ h. cc, λ h. absurd h)
is_choice-IsChoice cs (boolean b) = (λ h. cc, λ h. absurd h)
is_choice-IsChoice cs (object s) = (λ h. cc, λ h. absurd h)
is_choice-IsChoice cs (array s) = (λ h. cc, λ h. absurd h)

-- What a parameter asks of its argument, or of its absence.
abbrev pub ConformsTo : ToolParameter → Option Value → Type 0
ConformsTo p none = p.required ≡ false
ConformsTo p (some v) = HasType p.kind v × ((has_choices p.choices ≡ false) ⊎ IsChoice p.choices v)

enumerated :
    (p : ToolParameter) (v : Value) (checked : Option Problem)
    → (value_problem p v checked ≡ none)
      ↔ ((checked ≡ none) × ((has_choices p.choices ≡ false) ⊎ IsChoice p.choices v))
enumerated p v (some problem) = (λ h. cc, λ h. cc h.0)
enumerated p v none = (
  λ h. (refl, ground (arith, (is_choice-IsChoice p.choices v).0)),
  λ h. ground (arith, (is_choice-IsChoice p.choices v).1, h.1),
)

parameter-ConformsTo :
    (p : ToolParameter) (arg : Option Value) → (parameter_problem p arg ≡ none) ↔ ConformsTo p arg
unfolding parameter_problem
parameter-ConformsTo p none = (λ h. ground arith, λ h. ground arith)
parameter-ConformsTo p (some v) =
    let step = enumerated p v (validate_parameter_type p.kind v) in
    (
      λ h. let (a, b) = step.0 h in (type-HasType p.kind v a, b),
      λ h. step.1 (HasType-type p.kind v h.0, h.1),
    )

first-none :
    (field : Text) (problem : Option Problem) (rest : Option ValidationError)
    → (first_problem field problem rest ≡ none) ↔ ((problem ≡ none) × (rest ≡ none))
first-none field none rest = (λ h. (refl, h), λ h. h.1)
first-none field (some x) rest = (λ h. cc, λ h. cc h.0)

-- Arguments pass BaseTool.Validate exactly when each parameter that is absent is not required, and each
-- one present has the type its schema names, the empty and the `any` type admitting every value, and
-- is one of the texts of the parameter's enumeration, where it has one. Names of no parameter are
-- let through.
pub validate_arguments-ConformsTo :
    (ps : List ToolParameter) (args : Dict Value)
    → (validate_arguments ps args ≡ none)
      ↔ All (λ (p : ToolParameter). ConformsTo p (lookup p.name args)) ps
unfolding validate_arguments
validate_arguments-ConformsTo [] args = (λ h. tt, λ h. refl)
validate_arguments-ConformsTo (p ∷ ps) args =
    let step =
      first-none p.name (parameter_problem p (lookup p.name args)) (validate_arguments ps args) in
    let here = parameter-ConformsTo p (lookup p.name args) in
    let ih = validate_arguments-ConformsTo ps args in
    (λ h. let (a, rest) = step.0 h in (here.0 a, ih.0 rest), λ h. step.1 (here.1 h.0, ih.1 h.1))
