-- ===== src/Exec/Keeps.antt =====
-- Invariants of actions: one rule for each way to build an action.
use sohcahtoa_api.Prelude.{Bool, true, false, Option, none, some}
use sohcahtoa_api.Errors.{Error, Result, ok, err}
use sohcahtoa_api.Exec.{
  Exec, pure, raise, gets, ◌>>=◌, try_catch, raise_if, or_raise, continue, recover,
}

-- The action keeps `P`, whether it returns or throws.
pub record Keeps {S A : Type 0} (P : S → Type 0) (m : Exec S A) : Type 0 where
  pub at : (s : S) → P s → P (m s).1

module _ {S A : Type 0} {P : S → Type 0} where
  pub Keeps-pure : (a : A) → Keeps P (pure a)
  Keeps-pure a = record { at = λ s h. h }

  pub Keeps-raise : (e : Error) → Keeps P (raise {A = A} e)
  Keeps-raise e = record { at = λ s h. h }

  pub Keeps-gets : (f : S → A) → Keeps P (gets f)
  Keeps-gets f = record { at = λ s h. h }

  pub Keeps-or_raise : (o : Option A) (e : Error) → Keeps P (or_raise o e)
  Keeps-or_raise none e = record { at = λ s h. h }
  Keeps-or_raise (some a) e = record { at = λ s h. h }

  recover-keeps :
      (h : Error → Exec S A)
      → ((e : Error) → Keeps P (h e))
      → (p : Result A × S) → P p.1
      → P (recover h p).1
  recover-keeps h kh (ok a, s) q = q
  recover-keeps h kh (err e, s) q = (kh e).at s q

  pub Keeps-try_catch :
      (m : Exec S A) (h : Error → Exec S A)
      → Keeps P m
      → ((e : Error) → Keeps P (h e))
      → Keeps P (try_catch m h)
  Keeps-try_catch m h km kh = record { at = λ s q. recover-keeps h kh (m s) (km.at s q) }

module _ {S : Type 0} {P : S → Type 0} where
  pub Keeps-raise_if : (b : Bool) (e : Error) → Keeps P (raise_if b e)
  Keeps-raise_if true e = record { at = λ s h. h }
  Keeps-raise_if false e = record { at = λ s h. h }

module _ {S A B : Type 0} {P : S → Type 0} where
  continue-keeps :
      (f : A → Exec S B)
      → ((a : A) → Keeps P (f a))
      → (p : Result A × S) → P p.1
      → P (continue f p).1
  continue-keeps f kf (ok a, s) q = (kf a).at s q
  continue-keeps f kf (err e, s) q = q

  pub Keeps-bind :
      (m : Exec S A) (f : A → Exec S B) → Keeps P m → ((a : A) → Keeps P (f a)) → Keeps P (m >>= f)
  Keeps-bind m f km kf = record { at = λ s q. continue-keeps f kf (m s) (km.at s q) }

pub any-Keeps : {S A : Type 0} {m : Exec S A} → Keeps (λ s. Unit {0}) m
any-Keeps = record { at = λ s h. tt }

pub ruleset keeps_rules = (
  Keeps-pure, Keeps-raise, Keeps-gets, Keeps-or_raise, Keeps-raise_if, Keeps-try_catch, Keeps-bind,
)
