-- ===== src/Exec/Triples.antt =====
-- What holds after an action that returns, if something held before it.
use sohcahtoa_api.Prelude.{◌≡◌, refl, arith}
use sohcahtoa_api.Errors.{Result, ok, err}
use sohcahtoa_api.Exec.{Exec, ◌>>=◌, continue}
use sohcahtoa_api.Exec.Keeps.{Keeps}

-- From a state with `P` the action throws, or returns an `a` and leaves a state with `Q a`.
pub record Yields {S A : Type 0} (P : S → Type 0) (m : Exec S A) (Q : A → S → Type 0) : Type 0 where
  pub at : (s : S) → P s → (a : A) → (m s).0 ≡ ok a → Q a (m s).1

module _ {S A : Type 0} {P : S → Type 0} where
  pub Yields-Keeps : (m : Exec S A) → Keeps P m → Yields P m (λ a. P)
  Yields-Keeps m k = record { at = λ s h a e. k.at s h }

module _ {S A B : Type 0} {Q : A → S → Type 0} {R : B → S → Type 0} where
  continue-yields :
      (f : A → Exec S B)
      → ((a : A) → Yields (Q a) (f a) R)
      → (p : Result A × S) → ((a : A) → p.0 ≡ ok a → Q a p.1)
      → (b : B) → (continue f p).0 ≡ ok b
      → R b (continue f p).1
  continue-yields f g (ok a, s) h b e = (g a).at s (h a refl) b e
  continue-yields f g (err x, s) h b e = absurd (ground arith)

module _ {S A B : Type 0} {P : S → Type 0} {Q : A → S → Type 0} {R : B → S → Type 0} where
  pub Yields-bind :
      (m : Exec S A) (f : A → Exec S B)
      → Yields P m Q
      → ((a : A) → Yields (Q a) (f a) R)
      → Yields P (m >>= f) R
  Yields-bind m f y g = record { at = λ s h b e. continue-yields f g (m s) (y.at s h) b e }

module _ {S A B : Type 0} {P : S → Type 0} {R : B → S → Type 0} where
  -- an action that keeps `P` before the others
  pub Yields-after :
      (m : Exec S A) (f : A → Exec S B)
      → Keeps P m
      → ((a : A) → Yields P (f a) R)
      → Yields P (m >>= f) R
  Yields-after m f k g = Yields-bind m f (Yields-Keeps m k) g
