-- ===== src/Table.antt =====
-- The part of the database client that the services use, over tables as lists of rows. The client
-- is not part of the repository: this is its documented behaviour on a unique key. `find_unique`
-- is findUnique, `modify_where` is updateMany; Modules of the components wrap these with the
-- errors of `update` and `create`.
pub mod Laws
use sohcahtoa_api.Prelude.{ℕ, Bool, Option, none, some, List, [], ◌∷◌, ◌==◌, if◌then◌else◌}

module _ {A : Type 0} where
  -- findUnique({ where: { key: k } })
  unfoldable pub find_unique : (A → ℕ) → ℕ → List A → Option A
  find_unique key k [] = none
  find_unique key k (x ∷ xs) = if key x == k then some x else find_unique key k xs

  -- updateMany({ where, data })
  unfoldable pub modify_where : (A → Bool) → (A → A) → List A → List A
  modify_where p f [] = []
  modify_where p f (x ∷ xs) = (if p x then f x else x) ∷ modify_where p f xs

  -- the rows that `update({ where: { key: k }, data })` leaves
  unfoldable pub modify_unique : (A → ℕ) → ℕ → (A → A) → List A → List A
  unfolding modify_where
  modify_unique key k f = modify_where (λ x. key x == k) f
