-- ===== src/Auth/Onboarding/Steps.antt =====
-- What verifyBvnForSignup and createNigerianAccount of src/modules/auth/services/auth.service.ts
-- do, each by itself.
use sohcahtoa_api.Prelude.{
  ℕ, ◌+◌, ◌*◌, ◌==◌, ltb, ==_refl, Bool, true, false, ◌||◌, none, some, is_some, List, [], ◌∷◌,
  ◌++◌, Text, text_eq, text_eq_refl, find, any, ◌≡◌, refl, ◌∙◌, ap, Bool-cases, inl, inr, arith,
  if◌then◌else◌,
}
use sohcahtoa_api.Errors.{ok, succeeds}
use sohcahtoa_api.Exec.{result, continue, or_raise}
use sohcahtoa_api.Table.{find_unique}
use sohcahtoa_api.Validators.{validate_bvn, is_strong}
use sohcahtoa_api.Cbn.Middleware.{is_verified}
use sohcahtoa_api.Auth.Rows.{
  CustomerType, User, UserKyc, Identity, bvn_key, identity_value, key_eq, Redis, Hashing, World,
  AuthDb,
}
use sohcahtoa_api.Auth.Tables.{user_by, user_by_contact, kyc_by_bvn, create_account, has_text}
use sohcahtoa_api.Auth.Otp.{cached, keep}
use sohcahtoa_api.Auth.Signup.{
  identity_in, stored_identity, verify_bvn_for_signup, resume, remember,
}
use sohcahtoa_api.Auth.Onboarding.{
  identity_of, verified_customer, create_nigerian_account, nigerian_account, bvn_expired,
}

module _ {A : Type 0} where
  any-find-none : (p : A → Bool) (xs : List A) → find p xs ≡ none → any p xs ≡ false
  any-find-none p [] h = refl
  any-find-none p (x ∷ xs) h = elim (Bool-cases (p x)) [
    | inl here ↦ absurd (ground arith)
    | inr away ↦ rw away (any-find-none p xs (ground arith))
  ]

  pub find-some_of :
      (key : A → ℕ) (k : ℕ) (p : A → Bool) (a : A) (xs : List A)
      → find_unique key k xs ≡ some a
      → p a ≡ true
      → is_some (find p xs) ≡ true
  unfolding find_unique
  find-some_of key k p a [] found good = absurd (ground arith)
  find-some_of key k p a (x ∷ xs) found good = elim (Bool-cases (p x)) [
    | inl here ↦ rw here
    | inr away ↦ rw away (elim (Bool-cases (key x == k)) [
      | inl same ↦ absurd (ground arith)
      | inr other ↦ find-some_of key k p a xs (ground arith) good
    ])
  ]

  find-append_none :
      (p : A → Bool) (xs : List A) (a : A)
      → find p xs ≡ none
      → p a ≡ true
      → find p (xs ++ a ∷ []) ≡ some a
  find-append_none p [] a h good = rw good
  find-append_none p (x ∷ xs) a h good = elim (Bool-cases (p x)) [
    | inl here ↦ absurd (ground arith)
    | inr away ↦ rw away (find-append_none p xs a (ground arith) good)
  ]

read :
    (b : Bool) (i : Identity)
    → identity_in (if b then some (identity_value i) else none) ≡ (if b then some i else none)
read true i = refl
read false i = refl

pub in_time : (b : Bool) (i : Identity) → b ≡ true → (if b then some i else none) ≡ some i
in_time b i h = rw h

module _ {S : Type 0} (redis : Redis S) where
  -- what the token of a BVN stands for after it was kept
  pub kept :
      (w w' : World) (token : ℕ) (i : Identity) (db : AuthDb S)
      → identity_in (
          cached redis w'
            (bvn_key token)
            (keep redis w (bvn_key token) (30 * 60) (identity_value i) db))
        ≡ (if ltb w'.now (w.now + 30 * 60 * 1000) then some i else none)
  unfolding key_eq
  kept w w' token i db =
      ap identity_in (
        redis.get-setex w.now w'.now (bvn_key token) (bvn_key token) (30 * 60) (identity_value i)
          db.cache)
      ∙ rw (==_refl token) (read (ltb w'.now (w.now + 30 * 60 * 1000)) i)

  pub verified :
      (w : World) (bvn : Text) (i : Identity) (db : AuthDb S)
      → kyc_by_bvn bvn db ≡ none
      → validate_bvn bvn ≡ true
      → w.verify_identity bvn ≡ some i
      → verify_bvn_for_signup redis w bvn db ≡ (
        ok w.fresh_id,
        keep redis w (bvn_key w.fresh_id) (30 * 60) (identity_value (record i { number = bvn })) db,
      )
  unfolding verify_bvn_for_signup remember
  verified w bvn i db new format known = rw (new, format, known)

  pub restored :
      (w : World) (bvn : Text) (kyc : UserKyc) (u : User) (db : AuthDb S)
      → kyc_by_bvn bvn db ≡ some kyc
      → is_verified kyc.status ≡ false
      → user_by kyc.user_id db ≡ some u
      → verify_bvn_for_signup redis w bvn db ≡ (
        ok w.fresh_id,
        keep redis w
            (bvn_key w.fresh_id)
            (30 * 60)
            (identity_value (stored_identity bvn none u))
            db,
      )
  unfolding verify_bvn_for_signup resume remember
  restored w bvn kyc u db there unfinished owner = rw (there, unfinished, owner)

  module _ (hashing : Hashing) (w : World) (token : ℕ) (password : Text) (db : AuthDb S) where
    pub expired :
        identity_in (cached redis w (bvn_key token) db) ≡ none
        → succeeds (result (create_nigerian_account redis hashing w token password) db) ≡ false
    unfolding create_nigerian_account identity_of
    expired unknown =
        ap
          (λ o.
            succeeds
              (continue (nigerian_account redis hashing w token password)
                (or_raise o bvn_expired db)).0)
          unknown

    pub from_identity :
        (i : Identity)
        → identity_in (cached redis w (bvn_key token) db) ≡ some i
        → create_nigerian_account redis hashing w token password db
          ≡ nigerian_account redis hashing w token password i db
    unfolding create_nigerian_account identity_of
    from_identity i known =
        ap
          (λ o.
            continue (nigerian_account redis hashing w token password) (or_raise o bvn_expired db))
          known

    pub taken :
        (i : Identity)
        → is_some (user_by_contact i.email i.phone_number db) ≡ true
        → succeeds (nigerian_account redis hashing w token password i db).0 ≡ false
    unfolding nigerian_account
    taken i clash = elim (Bool-cases (is_strong password)) [
      | inl strong ↦ rw (strong, clash)
      | inr weak ↦ rw weak
    ]

    pub created :
        (i : Identity)
        → is_strong password ≡ true
        → user_by_contact i.email i.phone_number db ≡ none
        → kyc_by_bvn i.number db ≡ none
        → let p = nigerian_account redis hashing w token password i db in
          (p.0 ≡ ok w.fresh_id)
          × (user_by_contact i.email i.phone_number p.1
              ≡ some (verified_customer w CustomerType.nigerian_citizen i))
          × (p.1.otp_logs ≡ db.otp_logs)
    unfolding nigerian_account create_account
    created i strong new_user new_bvn =
        let free =
          any-find-none (λ u. text_eq u.email i.email || text_eq u.phone_number i.phone_number)
            db.users new_user in
        let unused = any-find-none (λ k. has_text i.number k.bvn) db.kycs new_bvn in
        rw (strong, new_user, new_bvn, free, unused)
          (
            refl,
            find-append_none (λ u. text_eq u.email i.email || text_eq u.phone_number i.phone_number)
                db.users _ new_user (rw (text_eq_refl i.email)),
            refl,
          )
