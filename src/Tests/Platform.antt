-- ===== src/Tests/Platform.antt =====
-- A Redis and a hashing of passwords that keep their laws, an empty database, and a world.
use sohcahtoa_api.Prelude.{
  ℕ, ◌+◌, ◌*◌, ◌≤◌, ltb, Bool, true, false, Option, none, some, List, [], ◌∷◌, Text, text_eq,
  text_eq_refl, ◌≡◌, ◌⊎◌, refl, inl, inr, Bool-cases, arith, if◌then◌else◌,
}
use sohcahtoa_api.Auth.Rows.{
  CacheKey, CacheValue, key_eq, Redis, Hashing, World, AuthDb, Identity, User, UserRole,
  CustomerType,
}

pub record Entry : Type 0 where
  pub key : CacheKey
  pub value : Option CacheValue
  pub until : ℕ

abbrev value_at : ℕ → Option CacheValue → ℕ → Option CacheValue
value_at now none until = none
value_at now (some v) until = if ltb now until then some v else none

unfoldable pub read_entry : ℕ → CacheKey → List Entry → Option CacheValue
unfolding key_eq
read_entry now j [] = none
read_entry now j (e ∷ es) =
    let rest = read_entry now j es in if key_eq e.key j then value_at now e.value e.until else rest

pub read_entry_fades :
    (now later : ℕ) (k : CacheKey) (s : List Entry)
    → now ≤ later
    → (read_entry later k s ≡ none) ⊎ (read_entry later k s ≡ read_entry now k s)
unfolding read_entry
read_entry_fades now later k [] h = inl refl
read_entry_fades now later k (e ∷ es) h = elim (Bool-cases (key_eq e.key k)) [
  | inl here ↦ rw here (value_fades e.value)
  | inr away ↦ rw away (read_entry_fades now later k es h)
]
  where
    value_fades :
        (v : Option CacheValue)
        → (value_at later v e.until ≡ none) ⊎ (value_at later v e.until ≡ value_at now v e.until)
    value_fades none = inl refl
    value_fades (some v) = elim (Bool-cases (ltb later e.until)) [
      | inl early ↦ inr (ground arith)
      | inr late ↦ inl (rw late)
    ]

pub read_entry-cons :
    (now later : ℕ) (k j : CacheKey) (seconds : ℕ) (v : CacheValue) (s : List Entry)
    → read_entry later j (record { key = k; value = some v; until = now + seconds * 1000 } ∷ s) ≡ (
        if key_eq k j
        then (if ltb later (now + seconds * 1000) then some v else none)
        else read_entry later j s)
unfolding read_entry
read_entry-cons now later k j seconds v s = refl

pub read_entry-drop :
    (now : ℕ) (k j : CacheKey) (s : List Entry)
    → read_entry now j (record { key = k; value = none; until = 0 } ∷ s)
      ≡ (if key_eq k j then none else read_entry now j s)
unfolding read_entry
read_entry-drop now k j s = refl

abbrev pub memory : Redis (List Entry)
memory = record {
  get = read_entry;
  setex = λ now k seconds v s. record { key = k; value = some v; until = now + seconds * 1000 } ∷ s;
  del = λ k s. record { key = k; value = none; until = 0 } ∷ s;
  get-setex = read_entry-cons;
  get_fades = read_entry_fades;
  get-del = read_entry-drop;
}

abbrev fits_salted : Text → Text → Bool
fits_salted password [] = false
fits_salted password (salt ∷ stored) = text_eq password stored

abbrev pub salted : Hashing
salted = record {
  hash = λ salt password. salt ∷ password;
  compare = fits_salted;
  compare-hash = λ salt password. text_eq_refl password;
}

-- 123456
abbrev pub code : Text
code = 49 ∷ 50 ∷ 51 ∷ 52 ∷ 53 ∷ 54 ∷ []

-- ada@x.ng
abbrev pub email : Text
email = 97 ∷ 100 ∷ 97 ∷ 64 ∷ 120 ∷ 46 ∷ 110 ∷ 103 ∷ []

-- 08012345678
abbrev pub phone : Text
phone = 48 ∷ 56 ∷ 48 ∷ 49 ∷ 50 ∷ 51 ∷ 52 ∷ 53 ∷ 54 ∷ 55 ∷ 56 ∷ []

-- Secret1!
abbrev pub password : Text
password = 83 ∷ 101 ∷ 99 ∷ 114 ∷ 101 ∷ 116 ∷ 49 ∷ 33 ∷ []

-- 22222222222
abbrev pub bvn : Text
bvn = 50 ∷ 50 ∷ 50 ∷ 50 ∷ 50 ∷ 50 ∷ 50 ∷ 50 ∷ 50 ∷ 50 ∷ 50 ∷ []

-- Ada
abbrev pub ada : Text
ada = 65 ∷ 100 ∷ 97 ∷ []

abbrev pub identity : Identity
identity = record {
  number = bvn;
  document_url = none;
  first_name = ada;
  last_name = ada;
  email = email;
  phone_number = phone;
}

abbrev pub at_time : ℕ → World
at_time now = record {
  now = now;
  fresh_id = 900;
  session_id = 700;
  refresh_token = 800;
  otp = code;
  salt = 7;
  verify_identity = λ number. some identity;
}

abbrev pub empty_db : AuthDb (List Entry)
empty_db = record {
  users = [];
  credentials = [];
  kycs = [];
  sessions = [];
  otp_logs = [];
  agents = [];
  events = [];
  cache = [];
}

abbrev pub user : User
user = record {
  id = 1;
  email = email;
  phone_number = phone;
  role = UserRole.customer;
  customer_type = some CustomerType.nigerian_citizen;
  is_active = true;
  email_verified = true;
  first_name = ada;
  last_name = ada;
}
