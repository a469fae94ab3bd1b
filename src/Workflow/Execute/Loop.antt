-- ===== src/Workflow/Execute/Loop.antt =====
-- workflow/workflow.go: LoopNode.Execute, described by the iterations that it completes and by what
-- ends it.
use tracklogic_agent.Common.{
  ℕ, zero, suc, ◌+◌, ◌≤◌, ◌<◌, ◌≡◌, refl, sym, subst, ◌⊎◌, inl, inr, Bool, true, false, Text,
  Option, none, some, if◌then◌else◌, insert, arith,
}
use tracklogic_agent.Types.{GoError, Result, ok, err}
use tracklogic_agent.Exec.{Exec, pure, require, gets, ◌>>=◌, ◌>>◌, continue, update, bind-ok}
use tracklogic_agent.Workflow.{Scope, Shared, Tracker, Surroundings, Node, loop_node, present}
use tracklogic_agent.Workflow.Scoped.{noted, child_scope}
use tracklogic_agent.Workflow.Execute.{iterate, execute}

module _ {W : Type 0} (env : Surroundings W) (scope : Option Scope) (id : Text)
    (test : ℕ → Text → Exec (Shared W) Bool) (body : Text → Exec (Shared W) Text) where
  abbrev note : ℕ → Exec (Shared W) Unit
  note i = noted scope (λ k. record k { loops = insert id i k.loops })

  -- The context is alive, and the predicate of iteration `i` says yes or no.
  pub record Decides (i : ℕ) (current : Text) (yes : Bool) (s t : Shared W) : Type 0 where
    pub alive : env.ctx_err s.world ≡ none
    pub decided : test i current s ≡ (ok yes, t)

  -- Iteration `i` is completed: it is decided for, noted in the tracker, and its body has a result.
  pub record Completes (i : ℕ) (current : Text) (s : Shared W) (more : Text → Shared W → Type 0)
      : Type 0 where
    pub entered : Shared W
    pub decides : Decides i current true s entered
    pub result : Text
    pub left : Shared W
    pub ran : body current (note i entered).1 ≡ (ok result, left)
    pub after : more result left

  -- From iteration `i` on, `k` iterations are completed, one after the other, each on the result and
  -- the state of the one before it; `j` is the next.
  abbrev pub Passes : ℕ → ℕ → Text → Shared W → ℕ → Text → Shared W → Type 0
  Passes zero i current s j last u = (i ≡ j) × (current ≡ last) × (s ≡ u)
  Passes (suc k) i current s j last u =
      Completes i current s (λ result t. Passes k (i + 1) result t j last u)

  -- What fails in iteration `j`: the context, the predicate, or the body.
  pub record BodyFails (j : ℕ) (last : Text) (u : Shared W) (e : GoError) (v : Shared W)
      : Type 0 where
    pub entered : Shared W
    pub decides : Decides j last true u entered
    pub failed : body last (note j entered).1 ≡ (err e, v)

  abbrev pub Fails : ℕ → Text → Shared W → GoError → Shared W → Type 0
  Fails j last u e v =
      ((env.ctx_err u.world ≡ some e) × (v ≡ u))
      ⊎ (((env.ctx_err u.world ≡ none) × (test j last u ≡ (err e, v))) ⊎ BodyFails j last u e v)

  -- What ends the loop in the state `u`, with `k` of `n` iterations completed.
  abbrev pub Ends : ℕ → ℕ → ℕ → Text → Shared W → Result Text × Shared W → Type 0
  Ends n k j last u (ok output, v) =
      (output ≡ last) × (((k ≡ n) × (v ≡ u)) ⊎ ((k < n) × Decides j last false u v))
  Ends n k j last u (err e, v) = (k < n) × Fails j last u e v

  pub record IsLoop (n i : ℕ) (current : Text) (s : Shared W) (r : Result Text × Shared W)
      : Type 0 where
    pub completed : ℕ
    pub within : completed ≤ n
    pub next : ℕ
    pub last : Text
    pub reached : Shared W
    pub passes : Passes completed i current s next last reached
    pub ends : Ends n completed next last reached r

  at_once :
      (n i : ℕ) (current : Text) (s : Shared W) (r : Result Text × Shared W)
      → Ends n 0 i current s r
      → IsLoop n i current s r
  at_once n i current s r h = record {
    completed = 0;
    within = omega arith;
    next = i;
    last = current;
    reached = s;
    passes = (refl, refl, refl);
    ends = h;
  }

  Ends-suc :
      (n k j : ℕ) (last : Text) (u : Shared W) (r : Result Text × Shared W)
      → Ends n k j last u r
      → Ends (suc n) (suc k) j last u r
  Ends-suc n k j last u (ok output, v) (same, inl (all, eq)) = (same, inl (omega arith, eq))
  Ends-suc n k j last u (ok output, v) (same, inr (some_left, declines)) =
      (same, inr (omega arith, declines))
  Ends-suc n k j last u (err e, v) (some_left, h) = (omega arith, h)

  noted_ok :
      (o : Option Scope) (f : Tracker → Tracker) (s : Shared W)
      → noted o f s ≡ (ok tt, (noted o f s).1)
  unfolding pure update
  noted_ok none f s = refl
  noted_ok (some p) f s = refl

  module _ (n i : ℕ) (current : Text) (s : Shared W) where
    abbrev again : Text → Exec (Shared W) Text
    again result = iterate env scope id test body (i + 1) n result

    abbrev chosen : Bool → Exec (Shared W) Text
    chosen more = if more then (note i >> (body current >>= again)) else pure current

    module _
        (ih : (result : Text) (t : Shared W) → IsLoop n (i + 1) result t (again result t)) where
      body-IsLoop :
          (t : Shared W) (out : Result Text × Shared W)
          → Decides i current true s t
          → body current (note i t).1 ≡ out
          → IsLoop (suc n) i current s (continue again out)
      body-IsLoop t (ok result, u) entry h =
          let later = ih result u in
          record {
            completed = suc later.completed;
            within = omega (arith, later.within);
            next = later.next;
            last = later.last;
            reached = later.reached;
            passes = record {
              entered = t;
              decides = entry;
              result = result;
              left = u;
              ran = h;
              after = later.passes;
            };
            ends =
                Ends-suc n later.completed later.next later.last later.reached (again result u)
                  later.ends;
          }
      body-IsLoop t (err e, u) entry h =
          at_once (suc n) i current s (err e, u)
            (omega arith, inr (inr (record { entered = t; decides = entry; failed = h })))

      test-IsLoop :
          (out : Result Bool × Shared W)
          → env.ctx_err s.world ≡ none
          → test i current s ≡ out
          → IsLoop (suc n) i current s (continue chosen out)
      unfolding pure ◌>>=◌
      test-IsLoop (ok true, t) alive h =
          subst (IsLoop (suc n) i current s)
            (sym (
              bind-ok (note i) (λ _. body current >>= again) tt t (note i t).1
                (noted_ok scope _ t)))
            (body-IsLoop t (body current (note i t).1) (record { alive = alive; decided = h }) refl)
      test-IsLoop (ok false, t) alive h =
          at_once (suc n) i current s (ok current, t)
            (refl, inr (omega arith, record { alive = alive; decided = h }))
      test-IsLoop (err e, t) alive h =
          at_once (suc n) i current s (err e, t) (omega arith, inr (inl (alive, h)))

      alive-IsLoop :
          (o : Option GoError)
          → env.ctx_err s.world ≡ o
          → IsLoop (suc n) i current s ((require o (λ e. e) >>= λ _. test i current >>= chosen) s)
      unfolding require ◌>>=◌
      alive-IsLoop none h = test-IsLoop (test i current s) h refl
      alive-IsLoop (some e) h = at_once (suc n) i current s (err e, s) (omega arith, inl (h, refl))

  iterate-IsLoop :
      (n i : ℕ) (current : Text) (s : Shared W)
      → IsLoop n i current s (iterate env scope id test body i n current s)
  unfolding iterate pure gets ◌>>=◌
  iterate-IsLoop zero i current s = at_once 0 i current s (ok current, s) (refl, inl (refl, refl))
  iterate-IsLoop (suc n) i current s =
      alive-IsLoop n i current s (λ result t. iterate-IsLoop n (i + 1) result t)
        (env.ctx_err s.world) refl

-- A LoopNode with a predicate and a body completes some number of iterations, at most its MaxIter:
-- from 0 on, each with the context alive and the predicate true before its body, each on the result
-- of the one before. It then ends with the last result, because MaxIter iterations are completed or
-- the predicate says no, or with the error of the context, the predicate or the body in an iteration
-- below MaxIter.
pub execute-IsLoop :
    {W : Type 0} (env : Surroundings W) (scope : Option Scope) (id : Text)
    (test : ℕ → Text → Exec (Shared W) Bool) (child : Node W) (max_iter : ℕ) (input : Text)
    (s : Shared W)
    → IsLoop env scope id test
        (λ current. execute env (child_scope scope child current) child current)
        max_iter
        0
        input
        s
        (execute env scope (loop_node id (some test) (present child) max_iter) input s)
unfolding execute
execute-IsLoop env scope id test child max_iter input s =
    iterate-IsLoop env scope id test
      (λ current. execute env (child_scope scope child current) child current) max_iter 0 input s
