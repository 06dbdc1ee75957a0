-- ===== src/Table/Laws.antt =====
-- What a lookup finds after a change of the table.
use sohcahtoa_api.Prelude.{
  Option-cases, sym, ◌∙◌, ==_eq, ==_refl, ℕ, ◌≡◌, refl, Bool, true, false, Option, none, some, List,
  [], ◌∷◌, ◌++◌, arith, ◌==◌, if◌then◌else◌, length, All, Bool-cases, inl, inr, subst,
}
use sohcahtoa_api.Table.{find_unique, modify_where, modify_unique}

abbrev pub map_if : {A : Type 0} → Bool → (A → A) → Option A → Option A
map_if b f none = none
map_if true f (some a) = some (f a)
map_if false f (some a) = some a

pub map_if-false : {A : Type 0} (f : A → A) (o : Option A) → map_if false f o ≡ o
map_if-false f none = refl
map_if-false f (some a) = refl

module _ {A : Type 0} (key : A → ℕ) (f : A → A) (keeps : (a : A) → key (f a) ≡ key a) where
  -- A change that keeps the keys changes exactly the row with that key.
  pub find_unique-modify_unique :
      (k j : ℕ) (xs : List A)
      → find_unique key j (modify_unique key k f xs) ≡ map_if (k == j) f (find_unique key j xs)
  unfolding find_unique modify_unique
  find_unique-modify_unique k j [] = refl
  find_unique-modify_unique k j (x ∷ xs) = ground (arith, keeps x, find_unique-modify_unique k j xs)

  pub find_unique-modify_where :
      (p : A → Bool) (j : ℕ) (xs : List A) (a : A)
      → find_unique key j xs ≡ some a
      → find_unique key j (modify_where p f xs) ≡ some (if p a then f a else a)
  unfolding find_unique modify_where
  find_unique-modify_where p j [] a h = ground arith
  find_unique-modify_where p j (x ∷ xs) a h =
      ground (arith, keeps x, find_unique-modify_where p j xs a)

module _ {A : Type 0} (key : A → ℕ) where
  -- The row that a lookup returns has the key that was asked for.
  pub key-find_unique : (k : ℕ) (xs : List A) (a : A) → find_unique key k xs ≡ some a → key a ≡ k
  unfolding find_unique
  key-find_unique k [] a h = ground arith
  key-find_unique k (x ∷ xs) a h = ground (arith, key-find_unique k xs a)

  -- Appending a row leaves the rows that a lookup already finds.
  pub find_unique-append_some :
      (k : ℕ) (xs ys : List A) (a : A)
      → find_unique key k xs ≡ some a
      → find_unique key k (xs ++ ys) ≡ some a
  unfolding find_unique
  find_unique-append_some k [] ys a h = ground arith
  find_unique-append_some k (x ∷ xs) ys a h = ground (arith, find_unique-append_some k xs ys a)

  pub find_unique-append_none :
      (k : ℕ) (xs ys : List A)
      → find_unique key k xs ≡ none
      → find_unique key k (xs ++ ys) ≡ find_unique key k ys
  unfolding find_unique
  find_unique-append_none k [] ys h = refl
  find_unique-append_none k (x ∷ xs) ys h = ground (arith, find_unique-append_none k xs ys)

module _ {A : Type 0} (P : A → Type 0) where
  -- A predicate on all rows survives a change that keeps it on the rows that it changes.
  pub All-modify_where :
      (p : A → Bool) (f : A → A)
      → ((a : A) → p a ≡ true → P a → P (f a))
      → (xs : List A) → All P xs
      → All P (modify_where p f xs)
  unfolding modify_where
  All-modify_where p f keep [] h = tt
  All-modify_where p f keep (x ∷ xs) h = (pick (p x) (keep x), All-modify_where p f keep xs h.1)
    where
      pick : (b : Bool) → (b ≡ true → P x → P (f x)) → P (if b then f x else x)
      pick true k = k refl h.0
      pick false k = h.0

  pub All-modify_unique :
      (key : A → ℕ) (k : ℕ) (f : A → A)
      → ((a : A) → (key a == k) ≡ true → P a → P (f a))
      → (xs : List A) → All P xs
      → All P (modify_unique key k f xs)
  unfolding modify_unique
  All-modify_unique key k f keep xs h = All-modify_where (λ x. key x == k) f keep xs h

  pub All-find_unique :
      (key : A → ℕ) (k : ℕ) (xs : List A) (a : A) → All P xs → find_unique key k xs ≡ some a → P a
  unfolding find_unique
  All-find_unique key k [] a h e = absurd (ground arith)
  All-find_unique key k (x ∷ xs) a h e = elim (Bool-cases (key x == k)) [
    | inl here ↦ let same : x ≡ a = ground arith in subst P same h.0
    | inr there ↦ All-find_unique key k xs a h.1 (ground arith)
  ]

module _ {A : Type 0} where
  pub length-modify_where :
      (p : A → Bool) (f : A → A) (xs : List A) → length (modify_where p f xs) ≡ length xs
  unfolding modify_where
  length-modify_where p f [] = refl
  length-modify_where p f (x ∷ xs) = omega (arith, length-modify_where p f xs)

abbrev pub map_found : {A : Type 0} → (A → A) → Option A → Option A
map_found f none = none
map_found f (some a) = some (f a)

module _ {A : Type 0} (key : A → ℕ) where
  pub find_unique-modify_where-none :
      (p : A → Bool) (f : A → A)
      → ((a : A) → key (f a) ≡ key a)
      → (j : ℕ) (xs : List A) → find_unique key j xs ≡ none
      → find_unique key j (modify_where p f xs) ≡ none
  unfolding find_unique modify_where
  find_unique-modify_where-none p f keeps j [] h = refl
  find_unique-modify_where-none p f keeps j (x ∷ xs) h =
      ground (arith, keeps x, find_unique-modify_where-none p f keeps j xs)

  -- A change of some rows that keeps the keys, as a lookup sees it.
  pub find_unique-modify_where_found :
      (p : A → Bool) (f : A → A)
      → ((a : A) → key (f a) ≡ key a)
      → (j : ℕ) (xs : List A)
      → find_unique key j (modify_where p f xs)
        ≡ map_found (λ a. if p a then f a else a) (find_unique key j xs)
  find_unique-modify_where_found p f keeps j xs = elim (Option-cases (find_unique key j xs)) [
    | inl missing ↦ rw missing (find_unique-modify_where-none p f keeps j xs missing)
    | inr (a, found) ↦ rw found (find_unique-modify_where key f keeps p j xs a found)
  ]

module _ {A : Type 0} (key other : A → ℕ) where
  -- A row that is found by one key is there under its other key too.
  pub find_unique-exists :
      (k : ℕ) (xs : List A) (a : A)
      → find_unique key k xs ≡ some a
      → (b : A) × (find_unique other (other a) xs ≡ some b)
  unfolding find_unique
  find_unique-exists k [] a h = absurd (ground arith)
  find_unique-exists k (x ∷ xs) a h = elim (Bool-cases (other x == other a)) [
    | inl here ↦ (x, rw here)
    | inr away ↦ elim (Bool-cases (key x == k)) [
      | inl first ↦ absurd (ground (arith, ==_refl (other a)))
      | inr later ↦ let (b, found) = find_unique-exists k xs a (ground arith) in (b, rw away found)
    ]
  ]

-- Every row that a lookup finds satisfies `P`.
pub record AllFound {A : Type 0} (key : A → ℕ) (P : A → Type 0) (xs : List A) : Type 0 where
  pub at : (j : ℕ) (a : A) → find_unique key j xs ≡ some a → P a

module _ {A : Type 0} (key : A → ℕ) (P : A → Type 0) where
  pub AllFound-modify_where :
      (p : A → Bool) (f : A → A)
      → ((a : A) → key (f a) ≡ key a)
      → (xs : List A)
      → ((j : ℕ) (a : A) → find_unique key j xs ≡ some a → p a ≡ true → P a → P (f a))
      → AllFound key P xs
      → AllFound key P (modify_where p f xs)
  AllFound-modify_where p f keeps xs good h = record {
    at = λ j a e. elim (Option-cases (find_unique key j xs)) [
      | inl missing ↦
          absurd (ground (arith, find_unique-modify_where-none key p f keeps j xs missing))
      | inr (b, found) ↦
          let moved = find_unique-modify_where key f keeps p j xs b found in
          elim (Bool-cases (p b)) [
            | inl yes_p ↦
                let same : f b ≡ a = ground arith in
                subst P same (good j b found yes_p (h.at j b found))
            | inr no_p ↦ let same : b ≡ a = ground arith in subst P same (h.at j b found)
          ]
    ];
  }

  pub AllFound-modify_unique :
      (k : ℕ) (f : A → A)
      → ((a : A) → key (f a) ≡ key a)
      → (xs : List A) → ((a : A) → find_unique key k xs ≡ some a → P a → P (f a))
      → AllFound key P xs
      → AllFound key P (modify_unique key k f xs)
  unfolding modify_unique
  AllFound-modify_unique k f keeps xs good h =
      AllFound-modify_where (λ x. key x == k) f keeps xs
        (λ j a found here.
          let same : j ≡ k = sym (key-find_unique key j xs a found) ∙ ==_eq (key a) k here in
          good a (subst (λ i. find_unique key i xs ≡ some a) same found))
        h

  pub AllFound-append :
      (xs : List A) (x : A) → P x → AllFound key P xs → AllFound key P (xs ++ x ∷ [])
  unfolding find_unique
  AllFound-append xs x px h = record {
    at = λ j a e. elim (Option-cases (find_unique key j xs)) [
      | inl missing ↦
          let last = find_unique-append_none key j xs (x ∷ []) missing in
          let same : x ≡ a = ground arith in subst P same px
      | inr (b, found) ↦
          let first = find_unique-append_some key j xs (x ∷ []) b found in
          let same : b ≡ a = ground arith in subst P same (h.at j b found)
    ];
  }
