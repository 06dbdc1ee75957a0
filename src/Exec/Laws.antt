-- ===== src/Exec/Laws.antt =====
-- How a block goes on after an action whose result is known.
use sohcahtoa_api.Prelude.{◌≡◌, arith, ap}
use sohcahtoa_api.Errors.{Error, Result, ok, err}
use sohcahtoa_api.Exec.{Exec, continue, recover}

module _ {S A B : Type 0} where
  pub continue-ok :
      (f : A → Exec S B) (p : Result A × S) (a : A) → p.0 ≡ ok a → continue f p ≡ f a p.1
  continue-ok f (ok b, s) a h = let same : b ≡ a = ground arith in ap (λ x. f x s) same
  continue-ok f (err e, s) a h = absurd (ground arith)

  pub continue-err :
      (f : A → Exec S B) (p : Result A × S) (e : Error) → p.0 ≡ err e → continue f p ≡ (err e, p.1)
  continue-err f (ok b, s) e h = absurd (ground arith)
  continue-err f (err e', s) e h = ground arith

module _ {S A : Type 0} where
  pub recover-ok :
      (f : Error → Exec S A) (p : Result A × S) (a : A) → p.0 ≡ ok a → recover f p ≡ (ok a, p.1)
  recover-ok f (ok b, s) a h = ground arith
  recover-ok f (err e, s) a h = absurd (ground arith)

  pub recover-err :
      (f : Error → Exec S A) (p : Result A × S) (e : Error) → p.0 ≡ err e → recover f p ≡ f e p.1
  recover-err f (ok b, s) e h = absurd (ground arith)
  recover-err f (err e', s) e h = let same : e' ≡ e = ground arith in ap (λ x. f x s) same

-- The same, in a try block.
module _ {S A B : Type 0} where
  pub try-ok :
      (f : A → Exec S B) (h : Error → Exec S B) (p : Result A × S) (a : A)
      → p.0 ≡ ok a
      → recover h (continue f p) ≡ recover h (f a p.1)
  try-ok f h p a e = ap (recover h) (continue-ok f p a e)

  pub try-err :
      (f : A → Exec S B) (h : Error → Exec S B) (p : Result A × S) (x : Error)
      → p.0 ≡ err x
      → recover h (continue f p) ≡ h x p.1
  try-err f h p x e = ap (recover h) (continue-err f p x e)
