-- ===== src/Engine/Tools.antt =====
-- engine/agent.go and engine/task_controls.go: running the tool calls of a model's response. Tools,
-- the permission check and JSON are arguments; a registry is the map of tool/registry.go.
pub mod Scope
use tracklogic_agent.Common.{
  ℕ, Bool, true, false, Text, codes, text_eq, trim_space, is_empty, List, [], ◌∷◌, ◌++◌, Option,
  none, some, if◌then◌else◌, Dict, lookup,
}
use tracklogic_agent.Types.{
  ToolCall, GoError, new_error, wrap_error, tool_error, invalid_input, security_violation, Result,
  ok, err,
}
use tracklogic_agent.Interaction.{Request, Response, member}
use tracklogic_agent.Task.Protocol.{Checkpoint}
use tracklogic_agent.Engine.Runtime.{Runtime, Codec}

-- tool.Tool, with arguments and results in a type of JSON values.
pub record Tool (W J : Type 0) : Type 0 where
  pub validate : J → Option GoError
  pub execute : J → W → Result J × W

-- The fields of an Agent that executeToolCall reads; `none` is nil.
pub record Toolbox (W J : Type 0) : Type 0 where
  pub registry : Option (Dict (Tool W J))
  pub allowed_tools : Option (List Text)
  pub check_permission : Option (Text → Option GoError)
  pub decode : Text → Result J
  pub encode : J → Result Text

module _ {W J : Type 0} (codec : Codec) (box : Toolbox W J) where
  abbrev pub is_allowed : Option (List Text) → Text → Bool
  is_allowed none name = true
  is_allowed (some names) name = member name names

  abbrev pub denial : Option (Text → Option GoError) → Text → Option GoError
  denial none name = none
  denial (some check) name = check name

  abbrev pub encode_result : Result J × W → Result Text × W
  encode_result (err e, w) = (err e, w)
  encode_result (ok value, w) = elim (box.encode value) [
    | err e ↦ (err (wrap_error tool_error (codes "failed to marshal tool result") e), w)
    | ok text ↦ (ok text, w)
  ]

  abbrev pub run_validated : Tool W J → J → Option GoError → W → Result Text × W
  run_validated tool args (some e) w =
      (err (wrap_error invalid_input (codes "tool argument validation failed") e), w)
  run_validated tool args none w = encode_result (tool.execute args w)

  abbrev pub run_decoded : Tool W J → Result J → W → Result Text × W
  run_decoded tool (err e) w =
      (err (wrap_error invalid_input (codes "failed to parse tool arguments") e), w)
  run_decoded tool (ok args) w = run_validated tool args (tool.validate args) w

  abbrev pub run_permitted : Tool W J → ToolCall → Option GoError → W → Result Text × W
  run_permitted tool call (some e) w =
      (err (wrap_error security_violation (codes "tool permission denied") e), w)
  run_permitted tool call none w = run_decoded tool (box.decode call.function.arguments) w

  abbrev pub run_found : Option (Tool W J) → ToolCall → W → Result Text × W
  run_found none call w = (
    err (
        new_error tool_error
          (codes "tool " ++ (codec.quote call.function.name ++ codes " not found"))),
    w,
  )
  run_found (some tool) call w =
      run_permitted tool call (denial box.check_permission call.function.name) w

  abbrev pub run_in : Option (Dict (Tool W J)) → ToolCall → W → Result Text × W
  run_in none call w = (err (new_error tool_error (codes "no tool registry configured")), w)
  run_in (some registry) call w =
      if is_allowed box.allowed_tools call.function.name
      then run_found (lookup call.function.name registry) call w
      else (
        err (
            new_error security_violation (
              codes "tool "
              ++ (codec.quote call.function.name
                  ++ codes " is outside the agent capability scope"))),
        w,
      )

  -- Agent.executeToolCall
  unfoldable pub execute_tool_call : ToolCall → W → Result Text × W
  execute_tool_call call w = run_in box.registry call w

module _ {W : Type 0} (codec : Codec) (rt : Runtime W) where
  abbrev accepted : Option GoError × W → Result Text × W
  accepted (some e, w) = (err e, w)
  accepted (none, w) = (ok (codes "{\"accepted\":true}"), w)

  report : Result Text → W → Result Text × W
  report (err e) w =
      (err (wrap_error invalid_input (codes "failed to parse progress arguments") e), w)
  report (ok summary) w =
      if is_empty (trim_space summary)
      then (err (new_error invalid_input (codes "progress summary is required")), w)
      else accepted (rt.report_progress summary w)

  abbrev identified : Request → W → Request
  identified request w =
      if is_empty request.id then record request { id = rt.new_id w } else request

  abbrev answered : Result Response × W → Result Text × W
  answered (err e, w) = (err e, w)
  answered (ok response, w) = elim (codec.encode_response response) [
    | err e ↦ (err (wrap_error tool_error (codes "failed to encode interaction response") e), w)
    | ok text ↦ (ok text, w)
  ]

  ask : Result Request → Checkpoint → W → Result Text × W
  ask (err e) checkpoint w =
      (err (wrap_error invalid_input (codes "failed to parse interaction arguments") e), w)
  ask (ok request) checkpoint w = answered (rt.request_input (identified request w) checkpoint w)

  -- executeTaskControl: `none` when the call is of no control tool.
  unfoldable pub execute_task_control : ToolCall → Checkpoint → W → Option (Result Text × W)
  unfolding report ask
  execute_task_control call checkpoint w =
      if text_eq call.function.name (codes "report_progress")
      then some (report (codec.decode_progress call.function.arguments) w)
      else if text_eq call.function.name (codes "request_user_input")
      then some (ask (codec.decode_request call.function.arguments) checkpoint w)
      else none
