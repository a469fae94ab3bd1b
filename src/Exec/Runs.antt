-- ===== src/Exec/Runs.antt =====
-- Runs of a method that succeed: what each of its parts gave.
use tracklogic_agent.Common.{◌≡◌, refl, subst, Option, none, some}
use tracklogic_agent.Types.{GoError, Result, ok, err}
use tracklogic_agent.Exec.{Exec, continue, ◌>>=◌, require, gets, lift, update}
use tracklogic_agent.Exec.Steps.{Steps}

pub record IsBound {S A B : Type 0} (m : Exec S A) (f : A → Exec S B) (s : S) (b : B) (u : S)
    : Type 0 where
  pub first : A
  pub between : S
  pub first_ran : m s ≡ (ok first, between)
  pub rest_ran : f first between ≡ (ok b, u)

continue-IsBound :
    {S A B : Type 0} (m : Exec S A) (f : A → Exec S B) (s : S) (b : B) (u : S) (out : Result A × S)
    → m s ≡ out
    → continue f out ≡ (ok b, u)
    → IsBound m f s b u
continue-IsBound m f s b u (ok a, t) h k = record {
  first = a;
  between = t;
  first_ran = h;
  rest_ran = k;
}
continue-IsBound m f s b u (err e, t) h k = cc

pub bind-IsBound :
    {S A B : Type 0} (m : Exec S A) (f : A → Exec S B) (s : S) (b : B) (u : S)
    → (m >>= f) s ≡ (ok b, u)
    → IsBound m f s b u
unfolding ◌>>=◌
bind-IsBound m f s b u h = continue-IsBound m f s b u (m s) refl h

pub gets-ran :
    {S A : Type 0} (f : S → A) (a : A) (s t : S) → gets f s ≡ (ok a, t) → (f s ≡ a) × (s ≡ t)
unfolding gets
gets-ran f a s t h = (cc h, cc h)

pub lift-ran :
    {S A : Type 0} (r : Result A) (a : A) (s t : S) → lift r s ≡ (ok a, t) → (r ≡ ok a) × (s ≡ t)
unfolding lift
lift-ran r a s t h = (cc h, cc h)

pub require-ran :
    {S : Type 0} (o : Option GoError) (wrap : GoError → GoError) (u : Unit {0}) (s t : S)
    → require o wrap s ≡ (ok u, t)
    → (o ≡ none) × (s ≡ t)
unfolding require
require-ran none wrap u s t h = (refl, cc h)
require-ran (some e) wrap u s t h = cc h

-- Where `m` succeeds, the state that it leaves satisfies `Q`.
pub record Leaves {S A : Type 0} (Q : S → Type 0) (m : Exec S A) : Type 0 where
  pub after : (s : S) (a : A) (t : S) → m s ≡ (ok a, t) → Q t

pub Leaves-rest :
    {S A B : Type 0} (Q : S → Type 0) (m : Exec S A) (f : A → Exec S B)
    → ((a : A) → Leaves Q (f a))
    → Leaves Q (m >>= f)
Leaves-rest Q m f h = record {
  after = λ s b u eq.
      let ran = bind-IsBound m f s b u eq in (h ran.first).after ran.between b u ran.rest_ran;
}

-- The first part makes `Q` true, and the rest keeps it.
pub Leaves-then :
    {S A B : Type 0} (Q : S → Type 0) (m : Exec S A) (f : A → Exec S B)
    → Leaves Q m
    → ((a : A) → Steps (λ s t. Q s → Q t) (f a))
    → Leaves Q (m >>= f)
Leaves-then Q m f h k = record {
  after = λ s b u eq.
      let ran = bind-IsBound m f s b u eq in
      subst (λ out. Q out.1) ran.rest_ran
        ((k ran.first).at ran.between (h.after s ran.first ran.between ran.first_ran));
}

pub Leaves-update :
    {S : Type 0} (Q : S → Type 0) (f : S → S) → ((s : S) → Q (f s)) → Leaves Q (update f)
unfolding update
Leaves-update Q f h = record { after = λ s a t eq. subst (λ out. Q out.1) eq (h s) }
