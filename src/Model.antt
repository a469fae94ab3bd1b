-- ===== src/Model.antt =====
-- model/interface.go: what an Agent sends to a model and gets back. The metadata of a response and
-- the extra fields of a request, which the engine never reads, are left out; a temperature is a
-- number of millionths.
use tracklogic_agent.Common.{Text, List, Bool, Option, ℤ}
use tracklogic_agent.Types.{Message, ToolCall, Usage, GoError}

pub record InvokeRequest : Type 0 where
  pub messages : List Message
  pub tools : List Text  -- the names of the tool definitions
  pub temperature : ℤ
  pub max_tokens : ℤ
  pub stream : Bool

pub record InvokeResponse : Type 0 where
  pub content : Text
  pub reasoning : Text
  pub reasoning_state : List Text
  pub tool_calls : List ToolCall
  pub usage : Option Usage
  pub finish_reason : Text

pub record ResponseChunk : Type 0 where
  pub content : Text
  pub reasoning : Text
  pub reasoning_state : Text  -- empty when the chunk has none
  pub tool_call : Option ToolCall
  pub finish_reason : Text
  pub usage : Option Usage
  pub done : Bool
  pub error : Option GoError
