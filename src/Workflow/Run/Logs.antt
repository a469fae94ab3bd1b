-- ===== src/Workflow/Run/Logs.antt =====
-- workflow/workflow.go: the step logs of a Workflow's run.
use tracklogic_agent.Common.{
  ℕ, ◌+◌, ◌≡◌, refl, sym, ◌∙◌, ◌⊎◌, inl, inr, Text, codes, List, [], ◌∷◌, ◌++◌, append-nil,
  append_assoc, Option, none, some,
}
use tracklogic_agent.Types.{GoError, Result, ok, err}
use tracklogic_agent.Exec.{Exec}
use tracklogic_agent.Workflow.{
  Shared, Surroundings, Node, Child, missing, present, node_id, node_type, StepLog, WorkflowResult,
}
use tracklogic_agent.Workflow.Execute.{execute}
use tracklogic_agent.Workflow.Run.{
  run_nodes, before_node, mark, ended, after_node, when_ready, log_of, top_scope, node_failed,
}

module _ {W : Type 0} (env : Surroundings W) (name : Text) where
  -- The run ends with the error of `m`, a preparation made in the state `s`.
  pub record Refused (m : Exec (Shared W) Unit) (s : Shared W) (e : Option GoError) : Type 0 where
    pub failure : GoError
    pub left : Shared W
    pub failed : m s ≡ (err failure, left)
    pub reported : e ≡ some failure

  -- The entry of a node that is executed from the state `t` and has a result.
  pub record Succeeds (index : ℕ) (n : Node W) (current : Text) (t : Shared W) (l : StepLog)
      (more : Text → Shared W → Type 0) : Type 0 where
    pub output : Text
    pub left : Shared W
    pub executed : execute env (top_scope env name index current n) n current t ≡ (ok output, left)
    pub logged : l.error ≡ none
    pub after : more output left

  -- The last entry: of a node that is executed and fails, with which the run fails.
  pub record Fails (index : ℕ) (n : Node W) (current : Text) (t : Shared W) (l : StepLog)
      (ls : List StepLog) (e : Option GoError) : Type 0 where
    pub failure : GoError
    pub left : Shared W
    pub executed :
        execute env (top_scope env name index current n) n current t ≡ (err failure, left)
    pub logged : l.error ≡ some failure
    pub last : ls ≡ []
    pub reported : e ≡ some (node_failed (node_id n) failure)

  -- The entries `logs` are those of the nodes that are executed from the node `index` on, when the
  -- state is `s`, and the run ends with `e`. Without an entry for the next node, the context or the
  -- checkpoint before it has refused it.
  abbrev pub Covers : ℕ → List (Child W) → Text → Shared W → List StepLog → Option GoError → Type 0
  Covers index [] current s [] e =
      (e ≡ none) ⊎ Refused (mark env name [] index current (codes "workflow final checkpoint")) s e
  Covers index [] current s (l ∷ ls) e = ⊥
  Covers index (missing ∷ rest) current s logs e = Covers (index + 1) rest current s logs e
  Covers index (present n ∷ rest) current s [] e =
      Refused (before_node env name index n current) s e
  Covers index (present n ∷ rest) current s (l ∷ ls) e =
      (l.node_id ≡ node_id n)
      × (l.node_type ≡ node_type n)
      × ((t : Shared W) × (before_node env name index n current s ≡ (ok tt, t))
          × (Succeeds index n current t l (λ output u. Covers (index + 1) rest output u ls e)
              ⊎ Fails index n current t l ls e))

  -- The entries that a run adds to those it starts with cover the nodes.
  pub record IsLogged (index : ℕ) (nodes : List (Child W)) (current : Text) (s : Shared W)
      (logs : List StepLog) (r : WorkflowResult) : Type 0 where
    pub added : List StepLog
    pub appended : r.step_logs ≡ logs ++ added
    pub covers : Covers index nodes current s added r.error

  end-IsLogged :
      (index : ℕ) (current : Text) (s : Shared W) (logs : List StepLog)
      (out : Result (Unit {0}) × Shared W)
      → mark env name [] index current (codes "workflow final checkpoint") s ≡ out
      → IsLogged index [] current s logs
          (when_ready env current logs (ended env current none logs) out).0
  end-IsLogged index current s logs (ok tt, t) h = record {
    added = [];
    appended = sym (append-nil logs);
    covers = inl refl;
  }
  end-IsLogged index current s logs (err e, t) h = record {
    added = [];
    appended = sym (append-nil logs);
    covers = inr (record { failure = e; left = t; failed = h; reported = refl });
  }

  module _ (index : ℕ) (n : Node W) (rest : List (Child W)) (current : Text) (s : Shared W)
      (logs : List StepLog) where
    after-IsLogged :
        (t : Shared W) (next : Text → List StepLog → Shared W → WorkflowResult × Shared W)
        (out : Result Text × Shared W)
        → before_node env name index n current s ≡ (ok tt, t)
        → execute env (top_scope env name index current n) n current t ≡ out
        → ((output : Text) (more : List StepLog) (u : Shared W)
            → IsLogged (index + 1) rest output u more (next output more u).0)
        → IsLogged index
            (present n ∷ rest)
            current
            s
            logs
            (after_node env n current logs next out).0
    after-IsLogged t next (ok output, u) ready ran h =
        let l = log_of n none in
        let more = h output (logs ++ l ∷ []) u in
        record {
          added = l ∷ more.added;
          appended = more.appended ∙ append_assoc logs (l ∷ []) more.added;
          covers = (
            refl,
            refl,
            (
              t,
              ready,
              inl (record {
                output = output;
                left = u;
                executed = ran;
                logged = refl;
                after = more.covers;
              }),
            ),
          );
        }
    after-IsLogged t next (err e, u) ready ran h = record {
      added = log_of n (some e) ∷ [];
      appended = refl;
      covers = (
        refl,
        refl,
        (
          t,
          ready,
          inr (record {
            failure = e;
            left = u;
            executed = ran;
            logged = refl;
            last = refl;
            reported = refl;
          }),
        ),
      );
    }

    ready-IsLogged :
        (next : Shared W → WorkflowResult × Shared W) (out : Result (Unit {0}) × Shared W)
        → before_node env name index n current s ≡ out
        → ((t : Shared W)
            → before_node env name index n current s ≡ (ok tt, t)
            → IsLogged index (present n ∷ rest) current s logs (next t).0)
        → IsLogged index (present n ∷ rest) current s logs (when_ready env current logs next out).0
    ready-IsLogged next (ok tt, t) ran h = h t ran
    ready-IsLogged next (err e, t) ran h = record {
      added = [];
      appended = sym (append-nil logs);
      covers = record { failure = e; left = t; failed = ran; reported = refl };
    }

  -- However a run over the nodes goes, what it adds to the logs is one entry for each node that it
  -- executed, in order, on the output and the state of the one before it. The entry has the node's
  -- name, its type and its error. A node that fails has the last entry, and the run fails with its
  -- error; a node without an entry is not reached, since the context or a checkpoint has refused the
  -- run before, which fails with that error; a run without an error has executed every node.
  pub run_nodes-IsLogged :
      (index : ℕ) (nodes : List (Child W)) (current : Text) (logs : List StepLog) (s : Shared W)
      → IsLogged index nodes current s logs (run_nodes env name index nodes current logs s).0
  unfolding run_nodes
  run_nodes-IsLogged index [] current logs s = end-IsLogged index current s logs _ refl
  run_nodes-IsLogged index (missing ∷ rest) current logs s =
      let more = run_nodes-IsLogged (index + 1) rest current logs s in
      record { added = more.added; appended = more.appended; covers = more.covers }
  run_nodes-IsLogged index (present n ∷ rest) current logs s =
      ready-IsLogged index n rest current s logs _ (before_node env name index n current s) refl
        (λ t ready.
          after-IsLogged index n rest current s logs t (run_nodes env name (index + 1) rest)
            (execute env (top_scope env name index current n) n current t) ready refl
            (λ output more u. run_nodes-IsLogged (index + 1) rest output more u))
