-- ===== src/Tests/Data.antt =====
-- The values that the concrete runs share.
use tracklogic_agent.Common.{Text, codes, List, [], Option, none, Bool}
use tracklogic_agent.Types.{system, user, assistant, Message, ToolCall}
use tracklogic_agent.Model.{InvokeResponse, ResponseChunk}
use tracklogic_agent.Task.Config.{RetryConfig, CircuitConfig, SummaryConfig}
use tracklogic_agent.Engine.Agent.{plain_message}

abbrev pub greeting : Message
greeting = plain_message system (codes "be brief") 0

abbrev pub question : Message
question = plain_message user (codes "how far") 1

abbrev pub reply : Message
reply = plain_message assistant (codes "two laps") 2

abbrev pub call_of : Text → Text → ToolCall
call_of id arguments = record {
  id = id;
  kind = codes "function";
  function = record { name = codes "lap"; arguments = arguments };
}

abbrev pub response_of : Text → List ToolCall → InvokeResponse
response_of content calls = record {
  content = content;
  reasoning = [];
  reasoning_state = [];
  tool_calls = calls;
  usage = none;
  finish_reason = [];
}

abbrev pub chunk_of : Text → Option ToolCall → Bool → ResponseChunk
chunk_of content call done = record {
  content = content;
  reasoning = [];
  reasoning_state = [];
  tool_call = call;
  finish_reason = [];
  usage = none;
  done = done;
  error = none;
}

abbrev pub retries : RetryConfig
retries = record { max_attempts = 3; base_delay = 500; max_delay = 3000; max_retry_after = 5000 }

abbrev pub breaker : CircuitConfig
breaker = record { failure_threshold = 2; open_duration = 100; half_open_max = 1 }

abbrev pub summaries : SummaryConfig
summaries = record { max_messages = 40; keep_recent = 20; hard_limit = 60 }
