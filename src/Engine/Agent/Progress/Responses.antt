-- ===== src/Engine/Agent/Progress/Responses.antt =====
-- The rest of a round of Agent.run in engine/agent.go: what follows the response, and the round itself.
use tracklogic_agent.Common.{
  ℕ, ◌+◌, ◌≡◌, refl, inr, Bool, true, false, Text, codes, is_empty, trim_space, [], ◌∷◌, ◌++◌,
  Option, none, some, arith, if◌then◌else◌,
}
use tracklogic_agent.Types.{GoError, Result, ok, err}
use tracklogic_agent.Model.{InvokeResponse}
use tracklogic_agent.Engine.Runtime.{Runtime, Codec}
use tracklogic_agent.Engine.Tools.{Toolbox}
use tracklogic_agent.Engine.Agent.{
  RunConfig, Agent, RunState, ◌>>=◌, remember, failed_run, save, checkpoint_result, progress,
}
use tracklogic_agent.Engine.Agent.Loop.{
  continue_response, answer, conclude, succeed, handle_response, after_model, prepare,
  unless_cancelled, round,
}
use tracklogic_agent.Engine.Agent.Progress.{
  Stays, Stays->>=, failed_run-Stays, going-Stays, save-Stays, if-Stays, compact_task_memory-Stays,
  progress-loop_count, use_tools-Stays,
}

-- A response with visible content leaves the answer with content.
appended-visible :
    (before text : Text) → is_empty (trim_space text) ≡ false → is_empty (before ++ text) ≡ false
unfolding trim_space
appended-visible before [] h = ground arith
appended-visible [] (c ∷ text) h = refl
appended-visible (b ∷ before) (c ∷ text) h = refl

module _ {W J : Type 0} (a : Agent) (cfg : RunConfig) (rt : Runtime W) (codec : Codec)
    (box : Toolbox W J) (on_chunk : Text → W → W) (n : ℕ) where
  continue_response-Stays :
      (r : InvokeResponse) (s : RunState W)
      → s.loop_count ≡ n
      → Stays n (continue_response a cfg rt codec box on_chunk r s)
  unfolding continue_response remember
  continue_response-Stays r s h =
      if-Stays a cfg rt codec box on_chunk n _ _ _
        (save-Stays a cfg rt codec box on_chunk n _ none _
          (progress-loop_count a cfg rt codec box on_chunk n _ _ _ h))
        (going-Stays n _ h)

  succeed-Stays :
      (s : RunState W)
      → s.loop_count ≡ n
      → is_empty s.last_content ≡ false
      → Stays n (succeed a cfg rt codec box on_chunk s)
  unfolding succeed Stays
  succeed-Stays s h v = record { counted = h; visible = inr v }

  saved-Stays :
      (message : Text) (s : RunState W) (out : Option GoError × W)
      → s.loop_count ≡ n
      → is_empty s.last_content ≡ false
      → Stays n (
          checkpoint_result a cfg rt message s out >>= λ s'. succeed a cfg rt codec box on_chunk s')
  unfolding checkpoint_result
  saved-Stays message s (none, w) h v = succeed-Stays (record s { world = w }) h v
  saved-Stays message s (some e, w) h v = failed_run-Stays n _ (record s { world = w }) h

  conclude-Stays :
      (s : RunState W)
      → s.loop_count ≡ n
      → is_empty s.last_content ≡ false
      → Stays n (conclude a cfg rt codec box on_chunk s)
  unfolding conclude save progress
  conclude-Stays s h v =
      if-Stays a cfg rt codec box on_chunk n a.task_mode _ _
        (saved-Stays _ (progress a cfg rt (codes "preparing_answer") [] s) _ h v)
        (succeed-Stays s h v)

  answer-Stays :
      (r : InvokeResponse) (s : RunState W)
      → s.loop_count ≡ n
      → is_empty (trim_space r.content) ≡ false
      → Stays n (answer a cfg rt codec box on_chunk r s)
  unfolding answer remember
  answer-Stays r s h v = conclude-Stays _ h (appended-visible s.last_content r.content v)

  answered-Stays :
      (blank : Bool) (e : GoError) (r : InvokeResponse) (s : RunState W)
      → s.loop_count ≡ n
      → is_empty (trim_space r.content) ≡ blank
      → Stays n (if blank then failed_run e s else answer a cfg rt codec box on_chunk r s)
  answered-Stays true e r s h v = failed_run-Stays n e s h
  answered-Stays false e r s h v = answer-Stays r s h v

  handle_response-Stays :
      (r : InvokeResponse) (s : RunState W)
      → s.loop_count ≡ n
      → Stays n (handle_response a cfg rt codec box on_chunk r s)
  unfolding handle_response
  handle_response-Stays r s h =
      if-Stays a cfg rt codec box on_chunk n _ _ _
        (use_tools-Stays a cfg rt codec box on_chunk n r _ h)
        (if-Stays a cfg rt codec box on_chunk n _ _ _ (continue_response-Stays r _ h)
          (answered-Stays (is_empty (trim_space r.content)) _ r _ h refl))

  after_model-Stays :
      (s : RunState W) (out : Result (Option InvokeResponse) × W)
      → s.loop_count ≡ n
      → Stays n (after_model a cfg rt codec box on_chunk s out)
  after_model-Stays s (err e, w) h = failed_run-Stays n _ (record s { world = w }) h
  after_model-Stays s (ok none, w) h = failed_run-Stays n _ (record s { world = w }) h
  after_model-Stays s (ok (some r), w) h = handle_response-Stays r (record s { world = w }) h

  prepare-Stays :
      (s : RunState W) → s.loop_count ≡ n → Stays n (prepare a cfg rt codec box on_chunk s)
  prepare-Stays s h =
      if-Stays a cfg rt codec box on_chunk n _ _ _
        (Stays->>= n _ _
          (compact_task_memory-Stays a cfg rt codec box on_chunk n _
            (progress-loop_count a cfg rt codec box on_chunk n _ _ s h))
          (λ s' h'. going-Stays n _ (progress-loop_count a cfg rt codec box on_chunk n _ _ s' h')))
        (going-Stays n s h)

  unless_cancelled-Stays :
      (s : RunState W) (e : Option GoError)
      → s.loop_count ≡ n
      → Stays n (unless_cancelled a cfg rt codec box on_chunk s e)
  unless_cancelled-Stays s (some e) h = failed_run-Stays n _ s h
  unless_cancelled-Stays s none h =
      Stays->>= n _ _ (prepare-Stays s h) (λ s' h'. after_model-Stays s' _ h')

-- A round of the loop is the next one.
module _ {W J : Type 0} (a : Agent) (cfg : RunConfig) (rt : Runtime W) (codec : Codec)
    (box : Toolbox W J) (on_chunk : Text → W → W) where
  pub round-Stays :
      (s : RunState W) → Stays (s.loop_count + 1) (round a cfg rt codec box on_chunk s)
  unfolding round
  round-Stays s = unless_cancelled-Stays a cfg rt codec box on_chunk (s.loop_count + 1) _ _ refl
