-- ===== src/Team/Agreement.antt =====
-- workflow/team.go: the sequential mode of a Team that is resumed, and of one that was not interrupted.
use tracklogic_agent.Common.{
  ℕ, ◌+◌, ◌≡◌, refl, sym, ap, ◌∙◌, Bool, true, false, Text, codes, text_eq_refl, List, [], ◌∷◌,
  Option, none, some, if◌then◌else◌, Dict, lookup, insert, lookup-insert,
}
use tracklogic_agent.Types.{GoError, ok}
use tracklogic_agent.Engine.Agent.{RunOutput}
use tracklogic_agent.Task.Protocol.{Checkpoint}
use tracklogic_agent.Team.{
  TeamAgent, TeamState, TeamOutput, TeamEnvironment, delivered, team_position, emit_checkpoint,
}
use tracklogic_agent.Team.Run.{
  run_sequence, content_of, failed_agent, last_name, team_output, when_stored, agent_done,
}
use tracklogic_agent.Team.Resume.{resume_sequence}

module _ {W : Type 0} (env : TeamEnvironment W) (t : TeamState W) where
  delivered-ok :
      (in_task : Bool) (out : Option GoError × W) (w : W)
      → out ≡ (none, w)
      → (if in_task then delivered env out else (ok tt, w)) ≡ (ok tt, w)
  delivered-ok true out w h = ap (delivered env) h
  delivered-ok false out w h = refl

  emit_checkpoint-ok :
      (phase : Text) (index : ℕ) (current : Text) (outputs : Dict RunOutput) (pending : Text)
      (w : W)
      → ((c : Checkpoint) (v : W) → env.checkpoint c v ≡ (none, v))
      → emit_checkpoint env t phase index current outputs pending w ≡ (ok tt, w)
  unfolding emit_checkpoint
  emit_checkpoint-ok phase index current outputs pending w h =
      delivered-ok env.in_task
        (env.checkpoint (team_position env t phase index current outputs pending) w) w (h _ w)

  stored-ok :
      (phase : Text) (index : ℕ) (current : Text) (outputs : Dict RunOutput) (pending : Text)
      (w : W) (final : Text) (next : W → TeamOutput × W)
      → ((c : Checkpoint) (v : W) → env.checkpoint c v ≡ (none, v))
      → when_stored outputs final next (emit_checkpoint env t phase index current outputs pending w)
        ≡ next w
  stored-ok phase index current outputs pending w final next h =
      ap (when_stored outputs final next)
        (emit_checkpoint-ok phase index current outputs pending w h)

  -- What the run of one Agent leads to is the same for continuations that agree after a success.
  agent_done-same :
      (wrap : GoError → GoError) (outputs : Dict RunOutput) (final content : Text)
      (f g : Text → Dict RunOutput → W → TeamOutput × W) (w : W) (e : Option GoError)
      → f content outputs w ≡ g content outputs w
      → agent_done wrap outputs final f content w e ≡ agent_done wrap outputs final g content w e
  agent_done-same wrap outputs final content f g w none same = same
  agent_done-same wrap outputs final content f g w (some e) same = refl

  content_of-insert :
      (name : Text) (output : RunOutput) (outputs : Dict RunOutput)
      → content_of (lookup name (insert name output outputs)) ≡ output.content
  content_of-insert name output outputs =
      ap content_of (lookup-insert name name output outputs) ∙ rw (text_eq_refl name) refl

  -- The name that `final` stands for, at the Agents that are left.
  abbrev IsFinal : Text → List (TeamAgent W) → Text → Dict RunOutput → Type 0
  IsFinal final [] current outputs = content_of (lookup final outputs) ≡ current
  IsFinal final (a ∷ rest) current outputs = last_name (a ∷ rest) ≡ final

  next-IsFinal :
      (final : Text) (a : TeamAgent W) (rest : List (TeamAgent W)) (output : RunOutput)
      (outputs : Dict RunOutput)
      → last_name (a ∷ rest) ≡ final
      → IsFinal final rest output.content (insert a.name output outputs)
  next-IsFinal final a [] output outputs h =
      ap (λ name. content_of (lookup name (insert a.name output outputs))) (sym h)
      ∙ content_of-insert a.name output outputs
  next-IsFinal final a (b ∷ rest) output outputs h = h

  run_sequence-agrees :
      (final : Text) (index : ℕ) (agents : List (TeamAgent W)) (current : Text)
      (outputs : Dict RunOutput) (w : W)
      → ((c : Checkpoint) (v : W) → env.checkpoint c v ≡ (none, v))
      → IsFinal final agents current outputs
      → run_sequence env t final index agents current outputs w
        ≡ resume_sequence env t index agents current outputs w
  unfolding run_sequence resume_sequence
  run_sequence-agrees final index [] current outputs w h last =
      ap (λ c. (team_output outputs c none, w)) last
  run_sequence-agrees final index (a ∷ rest) current outputs w h last =
      let out = a.run current w in
      let outputs' = insert a.name out.0 outputs in
      let next = run_sequence env t final (index + 1) rest in
      let completed = emit_checkpoint env t (codes "agent_completed") (index + 1) in
      stored-ok (codes "agent") index current outputs a.name w current _ h
      ∙ agent_done-same (failed_agent (codes "agent") a.name) outputs' out.0.content out.0.content
          (λ content os v. when_stored os content (next content os) (completed content os [] v))
          (resume_sequence env t (index + 1) rest) out.1 out.0.error
          (stored-ok (codes "agent_completed") (index + 1) out.0.content outputs' [] out.1
              out.0.content (next out.0.content outputs') h
            ∙ run_sequence-agrees final (index + 1) rest out.0.content outputs' out.1 h
                (next-IsFinal final a rest out.0 outputs last))
      ∙ sym (stored-ok (codes "agent") index current outputs a.name w current _ h)

  -- Where the checkpoints are stored and leave the world as it is, Team.Run in the sequential mode does
  -- from any Agent on what Team.Resume does there: the same runs, outputs, error and final output,
  -- which is the content of the last Agent's output.
  pub run_sequence-resume_sequence :
      (index : ℕ) (a : TeamAgent W) (rest : List (TeamAgent W)) (current : Text)
      (outputs : Dict RunOutput) (w : W)
      → ((c : Checkpoint) (v : W) → env.checkpoint c v ≡ (none, v))
      → run_sequence env t (last_name (a ∷ rest)) index (a ∷ rest) current outputs w
        ≡ resume_sequence env t index (a ∷ rest) current outputs w
  run_sequence-resume_sequence index a rest current outputs w h =
      run_sequence-agrees (last_name (a ∷ rest)) index (a ∷ rest) current outputs w h refl
