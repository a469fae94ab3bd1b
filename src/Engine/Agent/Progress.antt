-- ===== src/Engine/Agent/Progress.antt =====
-- How the rounds of Agent.run in engine/agent.go count, and what a run that succeeds returns.
pub mod Responses
use tracklogic_agent.Common.{
  ℕ, ◌+◌, ◌≡◌, refl, ◌⊎◌, inl, inr, Bool, true, false, Text, codes, is_empty, trim_space, List, [],
  ◌∷◌, ◌++◌, Option, none, some, is_some, arith, if◌then◌else◌, leb,
}
use tracklogic_agent.Types.{ToolCall, GoError, Result, ok, err}
use tracklogic_agent.Model.{InvokeResponse}
use tracklogic_agent.Memory.{Memory, buffer, summary}
use tracklogic_agent.Memory.Summary
use tracklogic_agent.Memory.Summary.{SummaryMemory}
use tracklogic_agent.Task.Protocol.{tool_started, EventType, EventPayload}
use tracklogic_agent.Engine.Runtime.{Runtime, Codec}
use tracklogic_agent.Engine.Tools.{Toolbox}
use tracklogic_agent.Engine.Agent.{
  RunOutput, RunConfig, Agent, RunState, Flow, returned, going, ◌>>=◌, remember, failed_run, save,
  checkpoint_result, progress,
}
use tracklogic_agent.Engine.Agent.Compaction.{
  compact_task_memory, compact_memory, summarized, summary_failure,
}
use tracklogic_agent.Engine.Agent.Calls.{
  announce, acknowledged, controlled, after_tool, task_tool, run_plain_tool, run_tool, run_tools,
  use_tools,
}
use tracklogic_agent.Engine.Agent.Loop.{
  continue_response, answer, conclude, succeed, handle_response, after_model, prepare,
  unless_cancelled, round,
}

-- The output of a piece of the run in round `n`: it reports that round, and it is a failure or has
-- some content.
pub record IsOutput (n : ℕ) (out : RunOutput) : Type 0 where
  pub counted : out.loop_count ≡ n
  pub visible : (is_some out.error ≡ true) ⊎ (is_empty out.content ≡ false)

-- A piece of the run stays in round `n`.
unfoldable pub Stays : {W : Type 0} → ℕ → Flow W → Type 0
Stays n (returned out w m) = IsOutput n out
Stays n (going s) = s.loop_count ≡ n

Stays->>= :
    {W : Type 0} (n : ℕ) (m : Flow W) (f : RunState W → Flow W)
    → Stays n m
    → ((s : RunState W) → s.loop_count ≡ n → Stays n (f s))
    → Stays n (m >>= f)
unfolding Stays
Stays->>= n (returned out w m) f h k = h
Stays->>= n (going s) f h k = k s h

failed_run-Stays :
    {W : Type 0} (n : ℕ) (e : GoError) (s : RunState W)
    → s.loop_count ≡ n
    → Stays n (failed_run e s)
unfolding Stays failed_run
failed_run-Stays n e s h = record { counted = h; visible = inl refl }

pub going-Stays : {W : Type 0} (n : ℕ) (s : RunState W) → s.loop_count ≡ n → Stays n (going s)
unfolding Stays
going-Stays n s h = h

module _ {W J : Type 0} (a : Agent) (cfg : RunConfig) (rt : Runtime W) (codec : Codec)
    (box : Toolbox W J) (on_chunk : Text → W → W) (n : ℕ) where
  checkpoint_result-Stays :
      (message : Text) (s : RunState W) (out : Option GoError × W)
      → s.loop_count ≡ n
      → Stays n (checkpoint_result a cfg rt message s out)
  unfolding Stays checkpoint_result
  checkpoint_result-Stays message s (none, w) h = h
  checkpoint_result-Stays message s (some e, w) h = failed_run-Stays n _ (record s { world = w }) h

  pub save-Stays :
      (message : Text) (pending : Option ToolCall) (s : RunState W)
      → s.loop_count ≡ n
      → Stays n (save a cfg rt message pending s)
  unfolding save
  save-Stays message pending s h = checkpoint_result-Stays message s _ h

  pub if-Stays : (b : Bool) (p q : Flow W) → Stays n p → Stays n q → Stays n (if b then p else q)
  if-Stays true p q hp hq = hp
  if-Stays false p q hp hq = hq

  summary_failure-Stays :
      (e : GoError) (m : SummaryMemory) (s : RunState W)
      → s.loop_count ≡ n
      → Stays n (summary_failure a cfg rt codec e m s)
  summary_failure-Stays e m s h = if-Stays _ _ _ (going-Stays n _ h) (failed_run-Stays n _ s h)

  summarized-Stays :
      (m : SummaryMemory) (s : RunState W) (out : Result Text × W)
      → s.loop_count ≡ n
      → Stays n (summarized a cfg rt codec m s out)
  summarized-Stays m s (err e, w) h = summary_failure-Stays e m (record s { world = w }) h
  summarized-Stays m s (ok text, w) h =
      if-Stays _ _ _ (summary_failure-Stays _ m (record s { world = w }) h) (save-Stays _ none _ h)

  compact_memory-Stays :
      (m : Memory) (s : RunState W) → s.loop_count ≡ n → Stays n (compact_memory a cfg rt codec m s)
  compact_memory-Stays (buffer m) s h = going-Stays n s h
  compact_memory-Stays (summary m) s h =
      if-Stays (leb (Summary.len m) rt.summary_policy.max_messages) _ _ (going-Stays n _ h)
        (summarized-Stays m s _ h)

  compact_task_memory-Stays :
      (s : RunState W) → s.loop_count ≡ n → Stays n (compact_task_memory a cfg rt codec s)
  unfolding compact_task_memory
  compact_task_memory-Stays s h = compact_memory-Stays s.memory s h

  acknowledged-Stays :
      (message : Text) (s : RunState W) (out : Option GoError × W)
      → s.loop_count ≡ n
      → Stays n (acknowledged a cfg rt codec box message s out)
  acknowledged-Stays message s (none, w) h = going-Stays n (record s { world = w }) h
  acknowledged-Stays message s (some e, w) h = failed_run-Stays n _ (record s { world = w }) h

  announce-Stays :
      (message : Text) (kind : EventType) (payload : EventPayload) (s : RunState W)
      → s.loop_count ≡ n
      → Stays n (announce a cfg rt codec box message kind payload s)
  unfolding announce
  announce-Stays message kind payload s h = acknowledged-Stays message s _ h

  after_tool-Stays :
      (call : ToolCall) (s : RunState W) (out : Result Text × W)
      → s.loop_count ≡ n
      → Stays n (after_tool a cfg rt codec box call s out)
  unfolding remember
  after_tool-Stays call s (result, w) h =
      if-Stays _ _ _ (Stays->>= n _ _ (announce-Stays _ _ _ _ h) (λ s' h'. save-Stays _ none s' h'))
        (going-Stays n _ h)

  run_plain_tool-Stays :
      (call : ToolCall) (s : RunState W)
      → s.loop_count ≡ n
      → Stays n (run_plain_tool a cfg rt codec box call s)
  unfolding run_plain_tool
  run_plain_tool-Stays call s h = after_tool-Stays call s _ h

  progress-loop_count :
      (phase name : Text) (s : RunState W)
      → s.loop_count ≡ n
      → (progress a cfg rt phase name s).loop_count ≡ n
  unfolding progress
  progress-loop_count phase name s h = h

  controlled-Stays :
      (call : ToolCall) (s : RunState W) (out : Result Text × W)
      → s.loop_count ≡ n
      → Stays n (controlled a cfg rt codec box call s out)
  unfolding remember
  controlled-Stays call s (err e, w) h = failed_run-Stays n e _ h
  controlled-Stays call s (ok text, w) h = save-Stays _ none _ h

  task_tool-Stays :
      (call : ToolCall) (s : RunState W) (out : Option (Result Text × W))
      → s.loop_count ≡ n
      → Stays n (task_tool a cfg rt codec box call s out)
  task_tool-Stays call s (some out) h = controlled-Stays call s out h
  task_tool-Stays call s none h = Stays->>= n _ _ (save-Stays _ (some call) s h) (λ s1 h1.
      Stays->>= n _ _ (announce-Stays _ tool_started _ s1 h1)
        (λ s2 h2. run_plain_tool-Stays call _ (progress-loop_count _ _ s2 h2)))

  run_tool-Stays :
      (call : ToolCall) (s : RunState W)
      → s.loop_count ≡ n
      → Stays n (run_tool a cfg rt codec box call s)
  unfolding run_tool
  run_tool-Stays call s h =
      if-Stays _ _ _ (task_tool-Stays call s _ h) (run_plain_tool-Stays call s h)

  run_tools-Stays :
      (calls : List ToolCall) (s : RunState W)
      → s.loop_count ≡ n
      → Stays n (run_tools a cfg rt codec box calls s)
  unfolding run_tools
  run_tools-Stays [] s h = going-Stays n s h
  run_tools-Stays (call ∷ calls) s h =
      Stays->>= n _ _ (run_tool-Stays call s h) (λ s' h'. run_tools-Stays calls s' h')

  use_tools-Stays :
      (r : InvokeResponse) (s : RunState W)
      → s.loop_count ≡ n
      → Stays n (use_tools a cfg rt codec box r s)
  unfolding use_tools remember
  use_tools-Stays r s h = run_tools-Stays r.tool_calls _ h
