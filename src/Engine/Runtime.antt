-- ===== src/Engine/Runtime.antt =====
-- What a run asks of its surroundings, over the states W of the world: the context, the clock, the
-- model, the Task runtime (the interface task.Runtime), the circuits of the ReliabilityManager, and
-- the callbacks of the caller. Any of these may change the world, other runs' circuits included.
use tracklogic_agent.Common.{ℕ, Bool, Text, List, Option, ℤ}
use tracklogic_agent.Types.{Message, GoError, Result}
use tracklogic_agent.Memory.{Memory}
use tracklogic_agent.Model.{InvokeRequest, InvokeResponse}
use tracklogic_agent.Interaction.{Request, Response}
use tracklogic_agent.Task.Config.{RetryConfig, CircuitConfig, SummaryConfig}
use tracklogic_agent.Task.Protocol.{Event, Checkpoint}
use tracklogic_agent.Engine.Stream.{Stream}
use tracklogic_agent.Engine.Circuit.{ReliabilityManager}

pub record Runtime (W : Type 0) : Type 0 where
  pub ctx_err : W → Option GoError  -- ctx.Err()
  pub now : W → ℕ
  pub random : W → ℕ → ℕ  -- rand.Int64N on a positive argument
  pub parse_time : Text → Option ℕ  -- http.ParseTime
  pub sleep : ℤ → W → Option GoError × W  -- the timer, or ctx.Done first
  pub managed : Bool  -- the Agent has a ReliabilityManager
  pub model_key : Text  -- modelInstanceKey
  pub circuits : W → ReliabilityManager
  pub set_circuits : ReliabilityManager → W → W
  pub invoke : InvokeRequest → W → Result (Option InvokeResponse) × W
  pub invoke_stream : InvokeRequest → W → Result (Option Stream) × W
  pub retry_policy : RetryConfig
  pub circuit_policy : CircuitConfig
  pub summary_policy : SummaryConfig
  pub emit : Event → W → Option GoError × W
  pub checkpoint : Checkpoint → W → Option GoError × W
  pub report_progress : Text → W → Option GoError × W
  pub request_input : Request → Checkpoint → W → Result Response × W
  pub summarizer : Option (Text → List Message → W → Result Text × W)
  pub acquire : W → Result Memory × W  -- the conversation's lease, or the Agent's gate and memory
  pub release : Memory → W → W
  pub new_id : W → Text  -- task.NewID("interaction")

-- The library's functions on texts: the encodings of encoding/json, and fmt's %q and %v.
pub record Codec : Type 0 where
  pub decode_progress : Text → Result Text
  pub decode_request : Text → Result Request
  pub encode_response : Response → Result Text
  pub encode_text : Text → Result Text
  pub encode_history : Text → List Message → Result Text
  pub quote : Text → Text
  pub error_text : GoError → Text
