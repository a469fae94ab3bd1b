-- ===== src/Tests/Tools.antt =====
-- A registry of two tools, the arguments of one, the permissions of a user, and an input to validate.
use tracklogic_agent.Common.{
  to_lower, ◌≡◌, ◌↔◌, ◌⊎◌, true, false, Text, codes, List, [], ◌∷◌, none, Dict, lookup, All, pos,
}
use tracklogic_agent.Security.Validator.{Pattern, new_input_validator, contains, validate_input}
use tracklogic_agent.Security.Validator.Accepted.{IsClean, validate_input-IsClean}
use tracklogic_agent.Security.Permissions.{check, new_permission_manager}
use tracklogic_agent.Security.Permissions.Status.{
  Operation, allow, deny, become, perform_all, revise_all, verdict, unset, check-perform_all,
}
use tracklogic_agent.ToolLayer.Validation.{
  ToolParameter, Value, machine_integer, text, validate_arguments,
}
use tracklogic_agent.ToolLayer.Validation.Conformity.{ConformsTo, validate_arguments-ConformsTo}
use tracklogic_agent.ToolLayer.Registry.{RegisteredTool, Registry, register}
use tracklogic_agent.ToolLayer.Registry.Entries.{
  IsRegistry, IsRejected, IsRegistered, Change, registers, unregisters, change_all,
  change_all-IsRegistry, register-IsRegistered,
}

abbrev tool_of : Text → RegisteredTool Text
tool_of name = record { name = name; definition_name = name; is_nil = false; implementation = name }

abbrev changes : List (Change Text)
changes =
    registers (tool_of (codes "weather"))
    ∷ registers (tool_of (codes "lap"))
    ∷ registers (tool_of (codes "lap"))
    ∷ unregisters (codes "pit")
    ∷ []

abbrev tools : Registry Text
tools = change_all changes []

change_all-IsRegistry_example : IsRegistry tools
change_all-IsRegistry_example =
    change_all-IsRegistry changes [] (record { entries = tt; distinct = tt })

register-IsRegistered_example :
    IsRejected tools (register (tool_of (codes "lap")) tools)
    ⊎ IsRegistered (tool_of (codes "lap")) tools (register (tool_of (codes "lap")) tools)
register-IsRegistered_example = register-IsRegistered (tool_of (codes "lap")) tools

abbrev parameters : List ToolParameter
parameters =
    record {
      name = codes "lap";
      kind = codes "integer";
      description = [];
      required = true;
      choices = [];
    }
    ∷ record {
      name = codes "unit";
      kind = codes "string";
      description = [];
      required = false;
      choices = codes "km" ∷ codes "mi" ∷ [];
    }
    ∷ []

abbrev arguments : Dict Value
arguments = (codes "lap", machine_integer (pos 7)) ∷ (codes "unit", text (codes "km")) ∷ []

validate_arguments-ConformsTo_example :
    (validate_arguments parameters arguments ≡ none)
    ↔ All (λ (p : ToolParameter). ConformsTo p (lookup p.name arguments)) parameters
validate_arguments-ConformsTo_example = validate_arguments-ConformsTo parameters arguments

abbrev operations : List Operation
operations =
    become (codes "user")
    ∷ deny (codes "network_access" ∷ [])
    ∷ allow (codes "send_email" ∷ [])
    ∷ []

check-perform_all_example :
    check (codes "network_access") (perform_all operations new_permission_manager)
    ≡ verdict (revise_all (codes "network_access") operations unset)
check-perform_all_example = check-perform_all (codes "network_access") operations

abbrev ignore_rules : List Pattern
ignore_rules =
    record { text = codes "ignore (all|rules)"; matches = λ t. contains t (codes "ignore all") }
    ∷ []

validate_input-IsClean_example :
    (validate_input
        (λ t. t)
        to_lower
        (λ n. codes "9")
        ignore_rules
        (new_input_validator (pos 9) true)
        (codes "Lap times")
      ≡ none)
    ↔ IsClean to_lower ignore_rules (new_input_validator (pos 9) true) (codes "Lap times")
validate_input-IsClean_example =
    validate_input-IsClean (λ t. t) to_lower (λ n. codes "9") ignore_rules
      (new_input_validator (pos 9) true) (codes "Lap times")
