-- ===== src/ToolLayer/Validation.antt =====
-- tool/interface.go: BaseTool and the validation of a call's arguments. A value is what encoding/json
-- decodes into an `any`, or what Go code passes in its place.
pub mod Conformity
use tracklogic_agent.Common.{
  Bool, true, false, ◌&&◌, ◌||◌, not, Text, codes, text_eq, is_empty, List, [], ◌∷◌, Option, none,
  some, if◌then◌else◌, Dict, lookup, insert, ℤ,
}
use tracklogic_agent.Interaction.{member}

-- A floating-point number, as far as the checks look at it: whether it is finite, and whether
-- math.Trunc changes it. `fraction` holds the text of a number that is not whole.
pub data Float : Type 0 where
  nan infinite : Float
  whole : ℤ → Float
  fraction : Text → Float

pub data Value : Type 0 where
  nil other : Value
  text : Text → Value
  float64 float32 : Float → Value
  machine_integer : ℤ → Value  -- any of Go's integer types
  boolean : Bool → Value
  object array : Text → Value  -- with its encoding; `array` is []any, []string, []int or []float64

pub record ToolParameter : Type 0 where
  pub name : Text
  pub kind : Text  -- Type
  pub description : Text
  pub required : Bool
  pub choices : List Text  -- Enum

pub data Problem : Type 0 where
  field_missing : Problem
  wrong_type unsupported_type : Text → Problem
  not_a_choice : List Text → Problem

pub record ValidationError : Type 0 where
  pub field : Text
  pub problem : Problem

abbrev pub is_text : Value → Bool
is_text (text s) = true
is_text _ = false

abbrev pub is_boolean : Value → Bool
is_boolean (boolean b) = true
is_boolean _ = false

abbrev pub is_object : Value → Bool
is_object (object s) = true
is_object _ = false

abbrev pub is_array : Value → Bool
is_array (array s) = true
is_array _ = false

abbrev pub is_finite : Float → Bool
is_finite nan = false
is_finite infinite = false
is_finite _ = true

abbrev pub is_whole : Float → Bool
is_whole (whole n) = true
is_whole _ = false

abbrev pub is_number : Value → Bool
is_number (float64 x) = is_finite x
is_number (float32 x) = is_finite x
is_number (machine_integer n) = true
is_number _ = false

abbrev pub is_integer : Value → Bool
is_integer (float64 x) = is_whole x
is_integer (float32 x) = is_whole x
is_integer (machine_integer n) = true
is_integer _ = false

abbrev pub unless : Text → Bool → Option Problem
unless expected true = none
unless expected false = some (wrong_type expected)

-- validateParameterType
unfoldable pub validate_parameter_type : Text → Value → Option Problem
validate_parameter_type expected value =
    if is_empty expected || text_eq expected (codes "any")
    then none
    else if text_eq expected (codes "string")
    then unless expected (is_text value)
    else if text_eq expected (codes "number")
    then unless expected (is_number value)
    else if text_eq expected (codes "integer")
    then unless expected (is_integer value)
    else if text_eq expected (codes "boolean")
    then unless expected (is_boolean value)
    else if text_eq expected (codes "object")
    then unless expected (is_object value)
    else if text_eq expected (codes "array")
    then unless expected (is_array value)
    else some (unsupported_type expected)

-- The text, and whether it is a choice.
abbrev pub is_choice : List Text → Value → Bool
is_choice choices (text s) = member s choices
is_choice choices _ = false

abbrev pub has_choices : List Text → Bool
has_choices [] = false
has_choices (c ∷ cs) = true

-- What the loop of Validate finds wrong with one parameter.
abbrev pub value_problem : ToolParameter → Value → Option Problem → Option Problem
value_problem p value (some problem) = some problem
value_problem p value none =
    if has_choices p.choices && not (is_choice p.choices value)
    then some (not_a_choice p.choices)
    else none

unfoldable pub parameter_problem : ToolParameter → Option Value → Option Problem
unfolding validate_parameter_type
parameter_problem p none = if p.required then some field_missing else none
parameter_problem p (some value) = value_problem p value (validate_parameter_type p.kind value)

abbrev pub first_problem : Text → Option Problem → Option ValidationError → Option ValidationError
first_problem field (some problem) rest = some (record { field = field; problem = problem })
first_problem field none rest = rest

-- BaseTool.Validate
unfoldable pub validate_arguments : List ToolParameter → Dict Value → Option ValidationError
unfolding parameter_problem
validate_arguments [] args = none
validate_arguments (p ∷ ps) args =
    first_problem p.name (parameter_problem p (lookup p.name args)) (validate_arguments ps args)

pub record ToolDefinition : Type 0 where
  pub name : Text
  pub description : Text
  pub properties : Dict ToolParameter
  pub required : List Text

unfoldable pub properties_of : List ToolParameter → Dict ToolParameter → Dict ToolParameter
properties_of [] props = props
properties_of (p ∷ ps) props = properties_of ps (insert p.name p props)

unfoldable pub required_of : List ToolParameter → List Text
required_of [] = []
required_of (p ∷ ps) = let rest = required_of ps in if p.required then p.name ∷ rest else rest

-- BaseTool.Definition
unfoldable pub definition : Text → Text → List ToolParameter → ToolDefinition
unfolding properties_of required_of
definition name description parameters = record {
  name = name;
  description = description;
  properties = properties_of parameters [];
  required = required_of parameters;
}
