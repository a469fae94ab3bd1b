-- ===== src/Engine/Tools/Scope.antt =====
-- When a call of engine/agent.go's executeToolCall reaches its tool.
use tracklogic_agent.Common.{
  ◌≡◌, refl, ◌⊎◌, inl, inr, Bool, true, false, Text, Option, none, some, if◌then◌else◌, Dict,
  lookup,
}
use tracklogic_agent.Types.{ToolCall, GoError, Result, ok, err}
use tracklogic_agent.Engine.Runtime.{Codec}
use tracklogic_agent.Engine.Tools.{
  Tool, Toolbox, is_allowed, denial, encode_result, run_validated, run_decoded, run_permitted,
  run_found, run_in, execute_tool_call,
}

-- The call fails, and has had no effect.
pub record IsRefused {W : Type 0} (w : W) (out : Result Text × W) : Type 0 where
  pub error : GoError
  pub result : out ≡ (err error, w)

-- The call ran its tool: what the Agent's fields say of it, and its result.
pub record IsRun {W J : Type 0} (codec : Codec) (box : Toolbox W J) (call : ToolCall) (w : W)
    (out : Result Text × W) : Type 0 where
  pub tool : Tool W J
  pub args : J
  pub registry : Dict (Tool W J)
  pub configured : box.registry ≡ some registry
  pub allowed : is_allowed codec box box.allowed_tools call.function.name ≡ true
  pub found : lookup call.function.name registry ≡ some tool
  pub permitted : denial codec box box.check_permission call.function.name ≡ none
  pub decoded : box.decode call.function.arguments ≡ ok args
  pub valid : tool.validate args ≡ none
  pub result : out ≡ encode_result codec box (tool.execute args w)

module _ {W J : Type 0} (codec : Codec) (box : Toolbox W J) (call : ToolCall) (w : W) where
  abbrev pub IsScoped : Result Text × W → Type 0
  IsScoped out = IsRefused w out ⊎ IsRun codec box call w out

  refused : (e : GoError) → IsScoped (err e, w)
  refused e = inl (record { error = e; result = refl })

  module _ (registry : Dict (Tool W J)) (configured : box.registry ≡ some registry)
      (allowed : is_allowed codec box box.allowed_tools call.function.name ≡ true) where
    module _ (tool : Tool W J) (found : lookup call.function.name registry ≡ some tool)
        (permitted : denial codec box box.check_permission call.function.name ≡ none) where
      run_validated-IsScoped :
          (args : J) (e : Option GoError)
          → box.decode call.function.arguments ≡ ok args
          → tool.validate args ≡ e
          → IsScoped (run_validated codec box tool args e w)
      run_validated-IsScoped args (some e) decoded valid = refused _
      run_validated-IsScoped args none decoded valid = inr (record {
        tool = tool;
        args = args;
        registry = registry;
        configured = configured;
        allowed = allowed;
        found = found;
        permitted = permitted;
        decoded = decoded;
        valid = valid;
        result = refl;
      })

      run_decoded-IsScoped :
          (args : Result J)
          → box.decode call.function.arguments ≡ args
          → IsScoped (run_decoded codec box tool args w)
      run_decoded-IsScoped (err e) decoded = refused _
      run_decoded-IsScoped (ok args) decoded = run_validated-IsScoped args _ decoded refl

    run_permitted-IsScoped :
        (tool : Tool W J) (e : Option GoError)
        → lookup call.function.name registry ≡ some tool
        → denial codec box box.check_permission call.function.name ≡ e
        → IsScoped (run_permitted codec box tool call e w)
    run_permitted-IsScoped tool (some e) found permitted = refused _
    run_permitted-IsScoped tool none found permitted =
        run_decoded-IsScoped tool found permitted _ refl

    run_found-IsScoped :
        (found : Option (Tool W J))
        → lookup call.function.name registry ≡ found
        → IsScoped (run_found codec box found call w)
    run_found-IsScoped none found = refused _
    run_found-IsScoped (some tool) found = run_permitted-IsScoped tool _ found refl

  allowed-IsScoped :
      (registry : Dict (Tool W J)) (b : Bool) (e : GoError)
      → box.registry ≡ some registry
      → is_allowed codec box box.allowed_tools call.function.name ≡ b
      → IsScoped (
          if b then run_found codec box (lookup call.function.name registry) call w else (err e, w))
  allowed-IsScoped registry true e configured allowed =
      run_found-IsScoped registry configured allowed _ refl
  allowed-IsScoped registry false e configured allowed = refused e

  run_in-IsScoped :
      (registry : Option (Dict (Tool W J)))
      → box.registry ≡ registry
      → IsScoped (run_in codec box registry call w)
  run_in-IsScoped none configured = refused _
  run_in-IsScoped (some registry) configured = allowed-IsScoped registry _ _ configured refl

  -- A tool call either fails with nothing changed, or is one whose tool is registered under the call's
  -- name and in the Agent's scope, which the permission check admits, and whose arguments decode and
  -- are valid for the tool; its result is then that of the tool on these arguments, encoded.
  pub execute_tool_call-IsScoped : IsScoped (execute_tool_call codec box call w)
  unfolding execute_tool_call
  execute_tool_call-IsScoped = run_in-IsScoped box.registry refl
