-- ===== src/Prelude/Texts.antt =====
-- A text of the programming language as the list of its UTF-16 code units, and its equality.
use Prim.Native.Nat.{ℕ}
use mathlib.Core.Path.{◌≡◌, refl}
use mathlib.Core.Logic.{inl, inr}
use mathlib.Core.Bool.{Bool, true, false, ◌&&◌}
use mathlib.Core.List.{List, [], ◌∷◌}
use native.Mathlib.Omega.{arith}
use sohcahtoa_api.Prelude.Tests.{◌==◌, ==_refl, Bool-cases}

abbrev pub Text : Type 0
Text = List ℕ

unfoldable pub text_eq : Text → Text → Bool
text_eq [] [] = true
text_eq [] (d ∷ ds) = false
text_eq (c ∷ cs) [] = false
text_eq (c ∷ cs) (d ∷ ds) = c == d && text_eq cs ds

pub text_eq_refl : (c : Text) → text_eq c c ≡ true
unfolding text_eq
text_eq_refl [] = refl
text_eq_refl (c ∷ cs) = rw (==_refl c, text_eq_refl cs)

pub text_eq_sound : (a b : Text) → text_eq a b ≡ true → a ≡ b
unfolding text_eq
text_eq_sound [] [] h = refl
text_eq_sound [] (d ∷ ds) h = ground arith
text_eq_sound (c ∷ cs) [] h = ground arith
text_eq_sound (c ∷ cs) (d ∷ ds) h = elim (Bool-cases (text_eq cs ds)) [
  | inl same ↦ let one : c ≡ d = ground arith in rw (one, text_eq_sound cs ds same)
  | inr other ↦ ground arith
]

pub text_eq_comm : (a b : Text) → text_eq a b ≡ text_eq b a
unfolding text_eq
text_eq_comm [] [] = refl
text_eq_comm [] (d ∷ ds) = refl
text_eq_comm (c ∷ cs) [] = refl
text_eq_comm (c ∷ cs) (d ∷ ds) = let rest = text_eq_comm cs ds in ground arith

-- if (!text)
abbrev pub is_blank : Text → Bool
is_blank [] = true
is_blank (c ∷ cs) = false
