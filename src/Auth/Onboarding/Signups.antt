-- ===== src/Auth/Onboarding/Signups.antt =====
-- The steps from a BVN to an account in src/modules/auth/services/auth.service.ts, one after the
-- other.
use sohcahtoa_api.Prelude.{
  ℕ, ◌+◌, ◌*◌, ◌<◌, ltb, Bool, true, false, ◌||◌, none, some, is_some, Text, text_eq, text_eq_refl,
  ◌≡◌, refl, sym, subst, ◌∙◌, ap, arith, if◌then◌else◌,
}
use sohcahtoa_api.Errors.{ok, succeeds}
use sohcahtoa_api.Exec.{result, after}
use sohcahtoa_api.Validators.{validate_bvn, is_strong}
use sohcahtoa_api.Cbn.Middleware.{is_verified}
use sohcahtoa_api.Auth.Rows.{
  CustomerType, User, UserKyc, Identity, bvn_key, identity_value, Redis, Hashing, World, AuthDb,
}
use sohcahtoa_api.Auth.Tables.{user_by, user_by_contact, kyc_by_bvn}
use sohcahtoa_api.Auth.Otp.{cached, keep}
use sohcahtoa_api.Auth.Signup.{identity_in, stored_identity, verify_bvn_for_signup}
use sohcahtoa_api.Auth.Onboarding.{verified_customer, create_nigerian_account}
use sohcahtoa_api.Auth.Onboarding.Steps.{
  find-some_of, in_time, kept, verified, restored, expired, from_identity, taken, created,
}

module _ {S : Type 0} (redis : Redis S) where
  refused_either :
      (hashing : Hashing) (w : World) (token : ℕ) (password : Text) (db : AuthDb S) (i : Identity)
      (b : Bool)
      → identity_in (cached redis w (bvn_key token) db) ≡ (if b then some i else none)
      → is_some (user_by_contact i.email i.phone_number db) ≡ true
      → succeeds (result (create_nigerian_account redis hashing w token password) db) ≡ false
  refused_either hashing w token password db i true known clash =
      ap (λ p. succeeds p.0) (from_identity redis hashing w token password db i known)
      ∙ taken redis hashing w token password db i clash
  refused_either hashing w token password db i false known clash =
      expired redis hashing w token password db known

  -- Within half an hour after a new BVN was verified, a strong password is enough for an account with
  -- the data of the BVN, if its email, phone number and BVN are not in use: the call succeeds, and the
  -- user it leaves is a Nigerian customer with the email, the phone number and the name of the BVN,
  -- whose email counts as verified. The two calls leave the one-time passwords as they were.
  pub account_without_otp :
      (hashing : Hashing) (w w' : World) (bvn password : Text) (i : Identity) (db : AuthDb S)
      → kyc_by_bvn bvn db ≡ none
      → validate_bvn bvn ≡ true
      → w.verify_identity bvn ≡ some i
      → user_by_contact i.email i.phone_number db ≡ none
      → is_strong password ≡ true
      → w'.now < w.now + 30 * 60 * 1000
      → let left = after (verify_bvn_for_signup redis w bvn) db in
        let call = create_nigerian_account redis hashing w' w.fresh_id password in
        (result call left ≡ ok w'.fresh_id)
        × ((after call left).otp_logs ≡ db.otp_logs)
        × ((u : User) × (user_by_contact i.email i.phone_number (after call left) ≡ some u)
            × (u.email ≡ i.email)
            × (u.phone_number ≡ i.phone_number)
            × (u.first_name ≡ i.first_name)
            × (u.last_name ≡ i.last_name)
            × (u.email_verified ≡ true)
            × (u.customer_type ≡ some CustomerType.nigerian_citizen))
  account_without_otp hashing w w' bvn password i db new format known free strong soon =
      let j : Identity = record i { number = bvn } in
      let left = keep redis w (bvn_key w.fresh_id) (30 * 60) (identity_value j) db in
      let token =
        kept redis w w' w.fresh_id j db
        ∙ in_time (ltb w'.now (w.now + 30 * 60 * 1000)) j (ground arith) in
      let call = create_nigerian_account redis hashing w' w.fresh_id password in
      let start = verified redis w bvn i db new format known in
      let finish = from_identity redis hashing w' w.fresh_id password left j token in
      let done = created redis hashing w' w.fresh_id password left j strong free new in
      let whole = ap (λ p. call p.1) start ∙ finish in
      (
        ap (λ p. p.0) whole ∙ done.0,
        ap (λ p. p.1.otp_logs) whole ∙ done.2,
        (
          verified_customer w' CustomerType.nigerian_citizen i,
          ap (λ p. user_by_contact i.email i.phone_number p.1) whole ∙ done.1,
          refl,
          refl,
          refl,
          refl,
          refl,
          refl,
        ),
      )

  -- Where a KYC row with the BVN is there that is not VERIFIED, with its user, the verification
  -- restores a session; but no account comes of it, at any time and with any password.
  pub restored_is_refused :
      (hashing : Hashing) (w w' : World) (bvn password : Text) (kyc : UserKyc) (u : User)
      (db : AuthDb S)
      → kyc_by_bvn bvn db ≡ some kyc
      → is_verified kyc.status ≡ false
      → user_by kyc.user_id db ≡ some u
      → let left = after (verify_bvn_for_signup redis w bvn) db in
        (result (verify_bvn_for_signup redis w bvn) db ≡ ok w.fresh_id)
        × (succeeds (result (create_nigerian_account redis hashing w' w.fresh_id password) left)
            ≡ false)
  restored_is_refused hashing w w' bvn password kyc u db there unfinished owner =
      let i = stored_identity bvn none u in
      let left = keep redis w (bvn_key w.fresh_id) (30 * 60) (identity_value i) db in
      let same = restored redis w bvn kyc u db there unfinished owner in
      (
        ap (λ p. p.0) same,
        subst
            (λ p.
              succeeds (result (create_nigerian_account redis hashing w' w.fresh_id password) p.1)
              ≡ false)
            (sym same)
            (refused_either hashing w' w.fresh_id password left i
              (ltb w'.now (w.now + 30 * 60 * 1000)) (kept redis w w' w.fresh_id i db)
              (find-some_of (λ x. x.id) kyc.user_id
                (λ x. text_eq x.email u.email || text_eq x.phone_number u.phone_number) u db.users
                owner (rw (text_eq_refl u.email)))),
      )
