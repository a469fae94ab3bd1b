-- ===== src/Task/Protocol.antt =====
-- task/types.go: the events, turns, results and checkpoints that the Task runtime and the engine
-- exchange. A value of a workflow's state is its text, or something else that is only passed on.
use tracklogic_agent.Common.{ℕ, Bool, Text, List, [], Option, none, Dict, ℤ}
use tracklogic_agent.Types.{Message, ToolCall, ErrorCode, GoError}
use tracklogic_agent.Interaction.{Request, Response}

pub data EventType : Type 0 where
  task_started turn_started turn_status_changed user_message : EventType
  assistant_message_delta assistant_reasoning_delta assistant_message_completed : EventType
  progress_updated interaction_requested interaction_responded tool_started : EventType
  tool_completed model_attempt_started model_retry_waiting content_reset : EventType
  checkpoint_ready turn_completed turn_failed turn_cancelled : EventType

pub data DeliveryMode : Type 0 where
  best_effort required_ack : DeliveryMode

pub data TurnKind : Type 0 where
  agent team workflow : TurnKind

pub data TurnStatus : Type 0 where
  queued running waiting_input completed failed cancelled interrupted : TurnStatus

pub record AgentCheckpoint : Type 0 where
  pub agent_id : Text
  pub run_id : Text
  pub messages : List Message
  pub tool_calls : List ToolCall
  pub pending_tool_call : Option ToolCall
  pub last_content : Text
  pub total_tokens : ℕ
  pub loop_count : ℕ
  pub max_loops : ℤ
  pub temperature : ℤ
  pub max_tokens : ℤ
  pub summary : Text

pub record TeamCheckpoint : Type 0 where
  pub team_id : Text
  pub mode : Text
  pub phase : Text
  pub current_index : ℕ
  pub current_input : Text
  pub agent_outputs : Dict Text
  pub pending_agent_id : Text
  pub agent : Option AgentCheckpoint
  pub agents : Dict AgentCheckpoint

pub data StateValue : Type 0 where
  text other : Text → StateValue

pub record WorkflowCheckpoint : Type 0 where
  pub workflow_id : Text
  pub node_path : List Text
  pub next_node : ℕ
  pub current : Text
  pub state : Dict StateValue
  pub loop_indexes : Dict ℕ
  pub branches : Dict Bool
  pub completed : Dict Text
  pub agent : Option AgentCheckpoint
  pub agents : Dict AgentCheckpoint
  pub node_data : Dict Text

pub record Checkpoint : Type 0 where
  pub version : ℕ
  pub task_id : Text
  pub turn_id : Text
  pub kind : TurnKind
  pub target : Text
  pub status : TurnStatus
  pub last_sequence : ℕ
  pub agent : Option AgentCheckpoint
  pub team : Option TeamCheckpoint
  pub workflow : Option WorkflowCheckpoint
  pub interaction : Option Request

abbrev pub checkpoint_version : ℕ
checkpoint_version = 1

-- The optional fields of a payload that an event leaves out are empty.
pub record EventPayload : Type 0 where
  pub text : Text
  pub status : Option TurnStatus
  pub phase : Text
  pub agent_id : Text
  pub team_id : Text
  pub workflow_id : Text
  pub tool_name : Text
  pub tool_call_id : Text
  pub tool_result : Text
  pub attempt : ℕ
  pub max_attempts : ℕ
  pub next_attempt : ℕ
  pub delay_ms : ℤ
  pub error_code : Option ErrorCode
  pub error : Option GoError
  pub request : Option Request
  pub response : Option Response
  pub checkpoint : Option Checkpoint

abbrev pub empty_payload : EventPayload
empty_payload = record {
  text = [];
  status = none;
  phase = [];
  agent_id = [];
  team_id = [];
  workflow_id = [];
  tool_name = [];
  tool_call_id = [];
  tool_result = [];
  attempt = 0;
  max_attempts = 0;
  next_attempt = 0;
  delay_ms = ℤ.pos 0;
  error_code = none;
  error = none;
  request = none;
  response = none;
  checkpoint = none;
}

pub record Event : Type 0 where
  pub sequence : ℕ
  pub task_id : Text
  pub turn_id : Text
  pub run_id : Text
  pub item_id : Text
  pub kind : EventType  -- Type
  pub delivery : DeliveryMode
  pub occurred_at : ℕ
  pub payload : EventPayload

-- An event as a caller of Emit writes it, with the fields that emitting fills in left empty.
abbrev pub event : EventType → DeliveryMode → EventPayload → Event
event kind delivery payload = record {
  sequence = 0;
  task_id = [];
  turn_id = [];
  run_id = [];
  item_id = [];
  kind = kind;
  delivery = delivery;
  occurred_at = 0;
  payload = payload;
}

pub record Turn : Type 0 where
  pub id : Text
  pub task_id : Text
  pub kind : TurnKind
  pub target : Text
  pub status : TurnStatus
  pub started_at : ℕ
  pub completed_at : ℕ

pub record TurnResult : Type 0 where  -- Result
  pub turn_id : Text
  pub kind : TurnKind
  pub output : Text
  pub success : Bool
  pub error : Option GoError
