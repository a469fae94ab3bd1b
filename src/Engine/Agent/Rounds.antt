-- ===== src/Engine/Agent/Rounds.antt =====
-- What the loop of Agent.run in engine/agent.go returns when its rounds are over.
use tracklogic_agent.Types.{GoError, Result, ok, err}
use tracklogic_agent.Memory.{Memory}
use tracklogic_agent.Common.{
  Option, none, some, pos_part, ◌-◌, ℕ, zero, suc, ◌+◌, ◌≤◌, ◌≡◌, refl, ◌⊎◌, inl, true, false, Text,
  is_empty, is_some, arith,
}
use tracklogic_agent.Engine.Runtime.{Runtime, Codec}
use tracklogic_agent.Engine.Tools.{Toolbox}
use tracklogic_agent.Engine.Agent.{
  RunOutput, RunConfig, Agent, RunState, Flow, returned, going, remember,
}
use tracklogic_agent.Engine.Agent.Loop.{exceed, loop, next_round, Finished}
use tracklogic_agent.Engine.Agent.Run.{
  input, failure_output, start_state, run, run_from, run_rounds, validated, leased,
}
use tracklogic_agent.Engine.Agent.Progress.Responses.{round-Stays}
use tracklogic_agent.Engine.Agent.Progress.{Stays, save-Stays, going-Stays, if-Stays}

-- An output after at most `rounds` more rounds than `before`: a failure or some content.
pub record IsFinal (before rounds : ℕ) (out : RunOutput) : Type 0 where
  pub not_before : before ≤ out.loop_count
  pub not_beyond : out.loop_count ≤ before + rounds
  pub visible : (is_some out.error ≡ true) ⊎ (is_empty out.content ≡ false)

module _ {W J : Type 0} (a : Agent) (cfg : RunConfig) (rt : Runtime W) (codec : Codec)
    (box : Toolbox W J) (on_chunk : Text → W → W) where
  next_round-IsFinal :
      (before rounds : ℕ) (more : RunState W → Finished a cfg rt codec box on_chunk) (m : Flow W)
      → Stays (before + 1) m
      → ((s : RunState W) → IsFinal s.loop_count rounds (more s).0)
      → IsFinal before (suc rounds) (next_round a cfg rt codec box on_chunk more m).0
  unfolding Stays
  next_round-IsFinal before rounds more (returned out w m) h k =
      let counted : out.loop_count ≡ before + 1 = h.counted in
      record { not_before = omega arith; not_beyond = omega arith; visible = h.visible }
  next_round-IsFinal before rounds more (going s) h k =
      let not_before : s.loop_count ≤ (more s).0.loop_count = (k s).not_before in
      let not_beyond : (more s).0.loop_count ≤ s.loop_count + rounds = (k s).not_beyond in
      record { not_before = omega arith; not_beyond = omega arith; visible = (k s).visible }

  -- The loop ends after no more rounds than it was given: the output's loop count is the count that the
  -- loop began with or a later one, and exceeds it by the rounds given at most; and the output carries
  -- an error or has content.
  pub loop-IsFinal :
      (rounds : ℕ) (s : RunState W)
      → IsFinal s.loop_count rounds (loop a cfg rt codec box on_chunk rounds s).0
  unfolding loop exceed
  loop-IsFinal zero s = record {
    not_before = omega arith;
    not_beyond = omega arith;
    visible = inl refl;
  }
  loop-IsFinal (suc rounds) s =
      next_round-IsFinal s.loop_count rounds _ _ (round-Stays a cfg rt codec box on_chunk s)
        (λ s'. loop-IsFinal rounds s')

module _ {W J : Type 0} (a : Agent) (rt : Runtime W) (codec : Codec) (box : Toolbox W J)
    (on_chunk : Text → W → W) (cfg : RunConfig) where
  failure_output-IsFinal : (e : GoError) → IsFinal 0 (pos_part cfg.max_loops) (failure_output e)
  failure_output-IsFinal e = record {
    not_before = omega arith;
    not_beyond = omega arith;
    visible = inl refl;
  }

  first-IsFinal :
      (m : Flow W)
      → Stays 0 m
      → IsFinal 0
          (pos_part cfg.max_loops)
          (next_round a cfg rt codec box on_chunk
            (λ s. run_rounds a rt codec box on_chunk cfg s)
            m).0
  unfolding Stays
  first-IsFinal (returned out w m) h =
      let counted : out.loop_count ≡ 0 = h.counted in
      record { not_before = omega arith; not_beyond = omega arith; visible = h.visible }
  first-IsFinal (going s) h =
      let out = run_rounds a rt codec box on_chunk cfg s in
      let final =
        loop-IsFinal a cfg rt codec box on_chunk (pos_part cfg.max_loops - s.loop_count) s in
      let not_beyond : out.0.loop_count ≤ s.loop_count + (pos_part cfg.max_loops - s.loop_count) =
        final.not_beyond in
      record { not_before = omega arith; not_beyond = omega arith; visible = final.visible }

  validated-IsFinal :
      (text : Text) (m : Memory) (w : W) (e : Option GoError)
      → IsFinal 0
          (pos_part cfg.max_loops)
          (validated a rt codec box on_chunk cfg (input text) m w e).0
  unfolding start_state remember
  validated-IsFinal text m w (some e) = failure_output-IsFinal e
  validated-IsFinal text m w none =
      let s = start_state a rt codec box on_chunk cfg (input text) m w in
      first-IsFinal _ (
        if-Stays a cfg rt codec box on_chunk 0 a.task_mode _ _
          (save-Stays a cfg rt codec box on_chunk 0 _ none s refl) (going-Stays 0 s refl))

  leased-IsFinal :
      (text : Text) (out : Result Memory × W)
      → IsFinal 0 (pos_part cfg.max_loops) (leased a rt codec box on_chunk cfg (input text) out).0
  leased-IsFinal text (err e, w) = failure_output-IsFinal _
  leased-IsFinal text (ok m, w) = validated-IsFinal text m w _

  -- A run on an input ends after at most the configured number of rounds, whatever the model, the
  -- tools and the Task do, with an output that carries an error or has content.
  pub run-IsFinal :
      (text : Text) (w : W)
      → IsFinal 0 (pos_part cfg.max_loops) (run a rt codec box on_chunk cfg text w).0
  unfolding run run_from
  run-IsFinal text w = leased-IsFinal text (rt.acquire w)
