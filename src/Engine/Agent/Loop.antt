-- ===== src/Engine/Agent/Loop.antt =====
-- engine/agent.go: Agent.run. The loop runs on the rounds left, maxLoops less the rounds made, since
-- each round counts one. What the Agent's surroundings do is in the arguments of the section.
use tracklogic_agent.Common.{
  ℕ, zero, suc, ◌+◌, Bool, ◌||◌, not, Text, codes, trim_space, is_empty, List, [], ◌∷◌, ◌++◌,
  length, Option, none, some, if◌then◌else◌, ltb,
}
use tracklogic_agent.Types.{
  user, Usage, GoError, new_error, wrap_error, run_cancelled, api_error, max_loops_exceeded, Result,
  ok, err,
}
use tracklogic_agent.Model.{InvokeRequest, InvokeResponse}
use tracklogic_agent.Memory.{Memory, snapshot}
use tracklogic_agent.Task.Protocol.{
  event, empty_payload, best_effort, assistant_message_delta, assistant_reasoning_delta, EventType,
}
use tracklogic_agent.Engine.Stream.{Delta, content_delta, reasoning_delta}
use tracklogic_agent.Engine.Runtime.{Runtime, Codec}
use tracklogic_agent.Engine.Policy.{invoke_model, invoke_with_policy}
use tracklogic_agent.Engine.Tools.{Toolbox}
use tracklogic_agent.Engine.Agent.{
  RunOutput, RunConfig, Agent, RunState, Flow, remember, returned, going, ◌>>=◌,
  normalize_model_error, response_needs_continuation, continuation_instruction, plain_message,
  assistant_message, build_messages, failed_run, save, progress,
}
use tracklogic_agent.Engine.Agent.Compaction.{compact_task_memory}
use tracklogic_agent.Engine.Agent.Calls.{use_tools}

module _ {W J : Type 0} (a : Agent) (cfg : RunConfig) (rt : Runtime W) (codec : Codec)
    (box : Toolbox W J) (on_chunk : Text → W → W) where
  -- The events and callbacks of a streamed piece of the answer.
  abbrev emit_text : EventType → Text → W → W
  emit_text kind text w =
      (rt.emit
        (record (event kind best_effort (record empty_payload { text = text })) {
          run_id = a.run_id;
        })
        w).1

  abbrev called_back : Text → W → W
  called_back text w = if cfg.streams then on_chunk text w else w

  abbrev task_handler : Delta → W → W
  task_handler (content_delta text) w = called_back text (emit_text assistant_message_delta text w)
  task_handler (reasoning_delta text) w = emit_text assistant_reasoning_delta text w

  abbrev plain_handler : Delta → W → W
  plain_handler (content_delta text) w = on_chunk text w
  plain_handler (reasoning_delta text) w = w

  abbrev tool_names : List Text
  tool_names =
      if a.task_mode
      then a.tools ++ (codes "report_progress" ∷ codes "request_user_input" ∷ [])
      else a.tools

  abbrev request_of : RunState W → InvokeRequest
  request_of s = record {
    messages = build_messages a.system_prompt (rt.now s.world) s.memory;
    tools = tool_names;
    temperature = cfg.temperature;
    max_tokens = cfg.max_tokens;
    stream = a.task_mode || cfg.streams;
  }

  abbrev without_flag :
      Result (Option InvokeResponse) × Bool × W → Result (Option InvokeResponse) × W
  without_flag (result, streamed, w) = (result, w)

  unfoldable pub call_model : RunState W → Result (Option InvokeResponse) × W
  call_model s =
      if a.task_mode
      then invoke_with_policy rt (some task_handler) (request_of s) s.world
      else if cfg.streams
      then without_flag (invoke_model rt (some plain_handler) (request_of s) s.world)
      else without_flag (invoke_model rt none (request_of s) s.world)

  -- An incomplete response is kept, and the model asked to go on.
  unfoldable pub continue_response : InvokeResponse → RunState W → Flow W
  continue_response r s =
      let asked =
        remember
          (plain_message user (continuation_instruction (not (is_empty r.content)))
            (rt.now s.world))
          (record (remember (assistant_message r [] (rt.now s.world)) s) {
            last_content = s.last_content ++ r.content;
          }) in
      if a.task_mode
      then save a cfg rt (codes "continuation checkpoint was not acknowledged") none
          (progress a cfg rt (codes "continuing_model") [] asked)
      else going asked

  -- The output of a run that succeeds.
  unfoldable pub succeed : RunState W → Flow W
  succeed s =
      returned
        (record {
          content = s.last_content;
          tool_calls = s.tool_calls;
          messages = snapshot s.memory;
          error = none;
          total_tokens = s.total_tokens;
          loop_count = s.loop_count;
        })
        s.world s.memory

  unfoldable pub conclude : RunState W → Flow W
  unfolding succeed
  conclude s =
      if a.task_mode
      then (save a cfg rt (codes "final checkpoint was not acknowledged") none
            (progress a cfg rt (codes "preparing_answer") [] s)
          >>= λ s'. succeed s')
      else succeed s

  unfoldable pub answer : InvokeResponse → RunState W → Flow W
  unfolding conclude
  answer r s = conclude (record (remember (assistant_message r [] (rt.now s.world)) s) {
    last_content = s.last_content ++ r.content;
  })

  abbrev tokens_of : Option Usage → ℕ
  tokens_of none = 0
  tokens_of (some u) = u.total_tokens

  -- The body of the loop once the model has responded.
  unfoldable pub handle_response : InvokeResponse → RunState W → Flow W
  unfolding continue_response answer
  handle_response r s0 =
      let s = record s0 { total_tokens = s0.total_tokens + tokens_of r.usage } in
      if ltb 0 (length r.tool_calls)
      then use_tools a cfg rt codec box r s
      else if response_needs_continuation r
      then continue_response r s
      else if is_empty (trim_space r.content)
      then failed_run (new_error api_error (codes "model returned no visible content or tool call"))
          s
      else answer r s

  abbrev pub after_model : RunState W → Result (Option InvokeResponse) × W → Flow W
  after_model s (err e, w) = failed_run (normalize_model_error e) (record s { world = w })
  after_model s (ok none, w) =
      failed_run (new_error api_error (codes "model returned a nil response"))
        (record s { world = w })
  after_model s (ok (some r), w) = handle_response r (record s { world = w })

  abbrev pub prepare : RunState W → Flow W
  prepare s =
      if a.task_mode
      then (compact_task_memory a cfg rt codec (progress a cfg rt (codes "preparing_context") [] s)
          >>= λ s'. going (progress a cfg rt (codes "requesting_model") [] s'))
      else going s

  abbrev pub unless_cancelled : RunState W → Option GoError → Flow W
  unless_cancelled s (some e) =
      failed_run (wrap_error run_cancelled (codes "context cancelled") e) s
  unless_cancelled s none = prepare s >>= λ s'. after_model s' (call_model s')

  -- One round of the loop.
  unfoldable pub round : RunState W → Flow W
  unfolding handle_response call_model
  round s0 =
      let s = record s0 { loop_count = s0.loop_count + 1 } in
      unless_cancelled s (rt.ctx_err s.world)

  unfoldable pub exceed : RunState W → RunOutput
  exceed s = record {
    content = s.last_content;
    tool_calls = s.tool_calls;
    messages = snapshot s.memory;
    error = some (new_error max_loops_exceeded (codes "max loops exceeded"));
    total_tokens = s.total_tokens;
    loop_count = s.loop_count;
  }

  abbrev pub Finished : Type 0
  Finished = RunOutput × W × Memory

  -- `more` is the rest of the loop.
  abbrev pub next_round : (RunState W → Finished) → Flow W → Finished
  next_round more (returned out w m) = (out, w, m)
  next_round more (going s) = more s

  -- `for loopCount < maxLoops`, with the rounds that are left.
  unfoldable pub loop : ℕ → RunState W → Finished
  unfolding round exceed
  loop zero s = (exceed s, s.world, s.memory)
  loop (suc rounds) s = next_round (λ s'. loop rounds s') (round s)
