-- ===== src/Exec/Steps.antt =====
-- What a method does to its state, as a relation: one rule for each way to build a method.
use tracklogic_agent.Common.{Bool, true, false, Option, none, some, if◌then◌else◌}
use tracklogic_agent.Types.{GoError, Result, ok, err}
use tracklogic_agent.Exec.{
  Exec, pure, raise, gets, lift, recover, update, guard, require, ◌>>=◌, handled, continue,
}

-- `m` relates the state it starts from to the state it leaves, whether it succeeds or fails.
pub record Steps {S A : Type 0} (R : S → S → Type 0) (m : Exec S A) : Type 0 where
  pub at : (s : S) → R s (m s).1

-- The relations for which a method may be taken apart.
pub record IsPath {S : Type 0} (R : S → S → Type 0) : Type 0 where
  pub stay : (s : S) → R s s
  pub join : (s t u : S) → R s t → R t u → R s u

module _ {S : Type 0} {R : S → S → Type 0} (path : IsPath R) where
  pub Steps-pure : {A : Type 0} (a : A) → Steps R (pure a)
  unfolding pure
  Steps-pure a = record { at = path.stay }

  pub Steps-raise : {A : Type 0} (e : GoError) → Steps R (raise {A = A} e)
  unfolding raise
  Steps-raise e = record { at = path.stay }

  pub Steps-gets : {A : Type 0} (f : S → A) → Steps R (gets f)
  unfolding gets
  Steps-gets f = record { at = path.stay }

  pub Steps-lift : {A : Type 0} (r : Result A) → Steps R (lift r)
  unfolding lift
  Steps-lift r = record { at = path.stay }

  pub Steps-guard : (b : Bool) (e : GoError) → Steps R (guard b e)
  unfolding guard
  Steps-guard true e = record { at = path.stay }
  Steps-guard false e = record { at = path.stay }

  pub Steps-require : (o : Option GoError) (wrap : GoError → GoError) → Steps R (require o wrap)
  unfolding require
  Steps-require none wrap = record { at = path.stay }
  Steps-require (some e) wrap = record { at = path.stay }

  pub Steps-update : (f : S → S) → ((s : S) → R s (f s)) → Steps R (update f)
  unfolding update
  Steps-update f h = record { at = h }

  pub Steps-if :
      {A : Type 0} (b : Bool) (m n : Exec S A)
      → Steps R m
      → Steps R n
      → Steps R (if b then m else n)
  Steps-if true m n hm hn = hm
  Steps-if false m n hm hn = hn

  continue-Steps :
      {A B : Type 0} (s : S) (f : A → Exec S B) (out : Result A × S)
      → ((a : A) → Steps R (f a))
      → R s out.1
      → R s (continue f out).1
  continue-Steps s f (ok a, t) hf h = path.join s t (f a t).1 h ((hf a).at t)
  continue-Steps s f (err e, t) hf h = h

  pub Steps-bind :
      {A B : Type 0} (m : Exec S A) (f : A → Exec S B)
      → Steps R m
      → ((a : A) → Steps R (f a))
      → Steps R (m >>= f)
  unfolding ◌>>=◌
  Steps-bind m f hm hf = record { at = λ s. continue-Steps s f (m s) hf (hm.at s) }

  handled-Steps :
      {A : Type 0} (s : S) (h : GoError → Exec S A) (out : Result A × S)
      → ((e : GoError) → Steps R (h e))
      → R s out.1
      → R s (handled h out).1
  handled-Steps s h (ok a, t) hh r = r
  handled-Steps s h (err e, t) hh r = path.join s t (h e t).1 r ((hh e).at t)

  pub Steps-recover :
      {A : Type 0} (m : Exec S A) (h : GoError → Exec S A)
      → Steps R m
      → ((e : GoError) → Steps R (h e))
      → Steps R (recover m h)
  unfolding recover
  Steps-recover m h hm hh = record { at = λ s. handled-Steps s h (m s) hh (hm.at s) }

pub ruleset steps = (
  Steps-bind, Steps-recover, Steps-require, Steps-guard, Steps-if, Steps-gets, Steps-lift,
  Steps-raise, Steps-pure,
)
