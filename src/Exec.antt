-- ===== src/Exec.antt =====
-- Methods of Go that change a state and may return an error: the state that they leave comes back with
-- the error too.
pub mod Steps
pub mod Runs
use tracklogic_agent.Common.{◌≡◌, ap, Bool, true, false, Option, none, some}
use tracklogic_agent.Types.{GoError, Result, ok, err}

abbrev pub Exec : Type 0 → Type 0 → Type 0
Exec S A = S → Result A × S

module _ {S A : Type 0} where
  unfoldable pub pure : A → Exec S A
  pure a s = (ok a, s)

  unfoldable pub raise : GoError → Exec S A
  raise e s = (err e, s)

  unfoldable pub gets : (S → A) → Exec S A
  gets f s = (ok (f s), s)

  -- A result that is at hand.
  unfoldable pub lift : Result A → Exec S A
  lift r s = (r, s)

  abbrev pub handled : (GoError → Exec S A) → Result A × S → Result A × S
  handled h (ok a, s) = (ok a, s)
  handled h (err e, s) = h e s

  -- `if err != nil { ... }`, with what is done and returned then.
  unfoldable pub recover : Exec S A → (GoError → Exec S A) → Exec S A
  recover m h s = handled h (m s)

module _ {S : Type 0} where
  unfoldable pub update : (S → S) → Exec S Unit
  update f s = (ok tt, f s)

  -- `if test { return err }`
  unfoldable pub guard : Bool → GoError → Exec S Unit
  guard true e s = (err e, s)
  guard false e s = (ok tt, s)

  -- `if err != nil { return wrap(err) }`
  unfoldable pub require : Option GoError → (GoError → GoError) → Exec S Unit
  require none wrap s = (ok tt, s)
  require (some e) wrap s = (err (wrap e), s)

module _ {S A B : Type 0} where
  abbrev pub continue : (A → Exec S B) → Result A × S → Result B × S
  continue f (ok a, s) = f a s
  continue f (err e, s) = (err e, s)

  infixl 10 ◌>>=◌ ◌>>◌
  unfoldable pub ◌>>=◌ : Exec S A → (A → Exec S B) → Exec S B
  ◌>>=◌ m f s = continue f (m s)

  abbrev pub ◌>>◌ : Exec S A → Exec S B → Exec S B
  m >> n = m >>= λ _. n

  -- Where the first method succeeds, the second goes on from the state that it leaves.
  pub bind-ok :
      (m : Exec S A) (f : A → Exec S B) (a : A) (s t : S) → m s ≡ (ok a, t) → (m >>= f) s ≡ f a t
  unfolding ◌>>=◌
  bind-ok m f a s t h = ap (continue f) h

  pub bind-err :
      (m : Exec S A) (f : A → Exec S B) (e : GoError) (s t : S)
      → m s ≡ (err e, t)
      → (m >>= f) s ≡ (err e, t)
  unfolding ◌>>=◌
  bind-err m f e s t h = ap (continue f) h
