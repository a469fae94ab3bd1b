-- ===== src/Tests/World.antt =====
-- A world that counts the calls of its model and holds the circuits: the model asks for one tool
-- call, and answers the next time.
use tracklogic_agent.Common.{
  ℕ, ◌+◌, true, false, ◌==◌, if◌then◌else◌, Text, codes, [], ◌∷◌, Option, none, some, pos,
}
use tracklogic_agent.Types.{Result, ok, err, eof}
use tracklogic_agent.Model.{InvokeResponse}
use tracklogic_agent.Memory.{buffer}
use tracklogic_agent.Engine.Circuit.{ReliabilityManager, new_manager}
use tracklogic_agent.Engine.Runtime.{Runtime, Codec}
use tracklogic_agent.Engine.Tools.{Tool, Toolbox}
use tracklogic_agent.Engine.Agent.{Agent, RunConfig, RunState}
use tracklogic_agent.Tests.Data.{call_of, response_of, retries, breaker, summaries, question}

pub record World : Type 0 where
  pub calls : ℕ
  pub circuits : ReliabilityManager
  pub runs : ℕ  -- of the tool

abbrev pub fresh : World
fresh = record { calls = 0; circuits = new_manager; runs = 0 }

abbrev pub asking : InvokeResponse
asking = response_of [] (call_of (codes "c1") (codes "{}") ∷ call_of (codes "c2") (codes "{}") ∷ [])

abbrev pub answering : InvokeResponse
answering = response_of (codes "two laps") []

abbrev pub world_model : World → Result (Option InvokeResponse) × World
world_model w =
    (ok (some (if w.calls == 0 then asking else answering)), record w { calls = w.calls + 1 })

abbrev pub runtime : Runtime World
runtime = record {
  ctx_err = λ w. none;
  now = λ w. 0;
  random = λ w n. 0;
  parse_time = λ t. none;
  sleep = λ d w. (none, w);
  managed = true;
  model_key = codes "mock";
  circuits = λ w. w.circuits;
  set_circuits = λ m w. record w { circuits = m };
  invoke = λ r w. world_model w;
  invoke_stream = λ r w. (err eof, record w { calls = w.calls + 1 });
  retry_policy = retries;
  circuit_policy = breaker;
  summary_policy = summaries;
  emit = λ e w. (none, w);
  checkpoint = λ c w. (none, w);
  report_progress = λ t w. (none, w);
  request_input = λ r c w. (err eof, w);
  summarizer = none;
  acquire = λ w. (ok (buffer (record { messages = []; capacity = 10 })), w);
  release = λ m w. w;
  new_id = λ w. codes "interaction-1";
}

abbrev pub codec : Codec
codec = record {
  decode_progress = λ t. ok t;
  decode_request = λ t. err eof;
  encode_response = λ r. ok [];
  encode_text = λ t. ok t;
  encode_history = λ s ms. ok s;
  quote = λ t. t;
  error_text = λ e. codes "failed";
}

-- The tool `lap`, which gives back its arguments.
abbrev pub lap : Tool World Text
lap = record { validate = λ t. none; execute = λ t w. (ok t, record w { runs = w.runs + 1 }) }

abbrev pub toolbox : Toolbox World Text
toolbox = record {
  registry = some ((codes "lap", lap) ∷ []);
  allowed_tools = some (codes "lap" ∷ []);
  check_permission = none;
  decode = λ t. ok t;
  encode = λ t. ok t;
}

abbrev pub engineer : Agent
engineer = record {
  name = codes "engineer";
  run_id = codes "run-1";
  system_prompt = codes "be brief";
  tools = codes "lap" ∷ [];
  task_mode = false;
}

abbrev pub settings : RunConfig
settings = record {
  max_loops = pos 4;
  streams = false;
  temperature = pos 1000000;
  max_tokens = pos 100;
  has_model = true;
}

abbrev pub begun : RunState World
begun = record {
  memory = buffer (record { messages = question ∷ []; capacity = 10 });
  tool_calls = [];
  last_content = [];
  total_tokens = 0;
  loop_count = 0;
  world = fresh;
}
