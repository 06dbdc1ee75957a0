-- ===== src/Auth/Sessions/Registration.antt =====
-- The methods of registration leave the table of sessions alone
-- (src/modules/auth/services/auth.service.ts).
use sohcahtoa_api.Prelude.{ℕ, Bool, true, false, Option, none, some, Text}
use sohcahtoa_api.Errors.{Error}
use sohcahtoa_api.Auth.Rows.{UserKyc, Identity, CustomerType, CacheKey, Redis, Hashing, World}
use sohcahtoa_api.Auth.Signup.{
  Channel, signup, remember, resume, bvn_or_new, verify_bvn_for_signup, extract_passport,
  supplied_or_new, by_number, extracted_or_new, verify_passport_for_signup,
}
use sohcahtoa_api.Auth.Onboarding.{
  identity_of, send_to, send_bvn_verification_otp, send_passport_verification_otp,
  send_nigerian_email_otp, check_code, validate_bvn_otp, validate_nigerian_email_otp,
  validate_passport_otp, create_nigerian_account, nigerian_account, create_passport_account,
}
use sohcahtoa_api.Auth.Sessions.Quiet.{
  Quiet, quiet_rules, send_otp-Quiet, validate_otp-Quiet, create_account-Quiet,
}
use sohcahtoa_api.Auth.Sessions.Others.{publish-Quiet, keep-Quiet, drop-Quiet}

module _ {S : Type 0} (redis : Redis S) where
  pub signup-Quiet :
      (hashing : Hashing) (w : World) (email phone password first last : Text)
      → Quiet (signup redis hashing w email phone password first last)
  unfolding signup
  signup-Quiet hashing w email phone password first last =
      search (quiet_rules, create_account-Quiet, publish-Quiet, send_otp-Quiet) depth 24

  remember-Quiet :
      (w : World) (key_of : ℕ → CacheKey) (i : Identity) → Quiet (remember redis w key_of i)
  unfolding remember
  remember-Quiet w key_of i = search (quiet_rules, keep-Quiet)

  resume-Quiet :
      (w : World) (key_of : ℕ → CacheKey) (number : Text) (url : Option Text) (kyc : UserKyc)
      (e : Error)
      → Quiet (resume redis w key_of number url kyc e)
  unfolding resume
  resume-Quiet w key_of number url kyc e = search (quiet_rules, remember-Quiet)

  bvn_or_new-Quiet :
      (kyc : Option UserKyc) (w : World) (bvn : Text) → Quiet (bvn_or_new redis kyc w bvn)
  bvn_or_new-Quiet none w bvn = search (quiet_rules, remember-Quiet)
  bvn_or_new-Quiet (some kyc) w bvn = resume-Quiet w _ bvn none kyc _

  pub verify_bvn_for_signup-Quiet :
      (w : World) (bvn : Text) → Quiet (verify_bvn_for_signup redis w bvn)
  unfolding verify_bvn_for_signup
  verify_bvn_for_signup-Quiet w bvn = search (quiet_rules, bvn_or_new-Quiet)

  extracted_or_new-Quiet :
      (kyc : Option UserKyc) (w : World) (url : Text) (i : Identity)
      → Quiet (extracted_or_new redis kyc w url i)
  extracted_or_new-Quiet none w url i = remember-Quiet w _ _
  extracted_or_new-Quiet (some kyc) w url i = resume-Quiet w _ _ _ kyc _

  by_number-Quiet :
      (a b : Bool) (kyc : Option UserKyc) (w : World) (url number : Text) (i : Identity)
      → Quiet (by_number redis a b kyc w url number i)
  by_number-Quiet false b kyc w url number i = remember-Quiet w _ _
  by_number-Quiet true false kyc w url number i = extracted_or_new-Quiet kyc w url i
  by_number-Quiet true true kyc w url number i = remember-Quiet w _ _

  extract_passport-Quiet :
      (w : World) (url number : Text) → Quiet (extract_passport redis w url number)
  unfolding extract_passport
  extract_passport-Quiet w url number = search (quiet_rules, by_number-Quiet)

  supplied_or_new-Quiet :
      (kyc : Option UserKyc) (w : World) (url number : Text)
      → Quiet (supplied_or_new redis kyc w url number)
  supplied_or_new-Quiet none w url number = extract_passport-Quiet w url number
  supplied_or_new-Quiet (some kyc) w url number = resume-Quiet w _ _ _ kyc _

  pub verify_passport_for_signup-Quiet :
      (w : World) (url number : Text) → Quiet (verify_passport_for_signup redis w url number)
  unfolding verify_passport_for_signup
  verify_passport_for_signup-Quiet w url number = search (quiet_rules, supplied_or_new-Quiet)

  identity_of-Quiet : (w : World) (key : CacheKey) (e : Error) → Quiet (identity_of redis w key e)
  unfolding identity_of
  identity_of-Quiet w key e = search quiet_rules

  send_to-Quiet : (channel : Channel) (w : World) (i : Identity) → Quiet (send_to redis channel w i)
  send_to-Quiet Channel.by_email w i = send_otp-Quiet redis w _ _ _
  send_to-Quiet Channel.by_phone w i = send_otp-Quiet redis w _ _ _

  pub send_bvn_verification_otp-Quiet :
      (w : World) (token : ℕ) (channel : Channel)
      → Quiet (send_bvn_verification_otp redis w token channel)
  unfolding send_bvn_verification_otp
  send_bvn_verification_otp-Quiet w token channel =
      search (quiet_rules, identity_of-Quiet, send_to-Quiet)

  pub send_passport_verification_otp-Quiet :
      (w : World) (token : ℕ) (channel : Channel)
      → Quiet (send_passport_verification_otp redis w token channel)
  unfolding send_passport_verification_otp
  send_passport_verification_otp-Quiet w token channel =
      search (quiet_rules, identity_of-Quiet, send_to-Quiet)

  pub send_nigerian_email_otp-Quiet :
      (w : World) (token : ℕ) → Quiet (send_nigerian_email_otp redis w token)
  unfolding send_nigerian_email_otp
  send_nigerian_email_otp-Quiet w token = search (quiet_rules, identity_of-Quiet, send_otp-Quiet)

  check_code-Quiet : (w : World) (otp : Text) → Quiet (check_code redis w otp)
  unfolding check_code
  check_code-Quiet w otp = search (quiet_rules, validate_otp-Quiet)

  pub validate_bvn_otp-Quiet :
      (w : World) (token : ℕ) (otp : Text) → Quiet (validate_bvn_otp redis w token otp)
  unfolding validate_bvn_otp
  validate_bvn_otp-Quiet w token otp = search (quiet_rules, identity_of-Quiet, check_code-Quiet)

  pub validate_nigerian_email_otp-Quiet :
      (w : World) (token : ℕ) (otp : Text) → Quiet (validate_nigerian_email_otp redis w token otp)
  unfolding validate_nigerian_email_otp
  validate_nigerian_email_otp-Quiet w token otp =
      search (quiet_rules, identity_of-Quiet, check_code-Quiet)

  pub validate_passport_otp-Quiet :
      (w : World) (token : ℕ) (otp : Text) → Quiet (validate_passport_otp redis w token otp)
  unfolding validate_passport_otp
  validate_passport_otp-Quiet w token otp =
      search (quiet_rules, identity_of-Quiet, check_code-Quiet)

  nigerian_account-Quiet :
      (hashing : Hashing) (w : World) (token : ℕ) (password : Text) (i : Identity)
      → Quiet (nigerian_account redis hashing w token password i)
  unfolding nigerian_account
  nigerian_account-Quiet hashing w token password i =
      search (quiet_rules, create_account-Quiet, drop-Quiet, publish-Quiet) depth 24

  pub create_nigerian_account-Quiet :
      (hashing : Hashing) (w : World) (token : ℕ) (password : Text)
      → Quiet (create_nigerian_account redis hashing w token password)
  unfolding create_nigerian_account
  create_nigerian_account-Quiet hashing w token password =
      search (quiet_rules, identity_of-Quiet, nigerian_account-Quiet)

  pub create_passport_account-Quiet :
      (type : CustomerType) (hashing : Hashing) (w : World) (token : ℕ) (password : Text)
      → Quiet (create_passport_account redis type hashing w token password)
  unfolding create_passport_account
  create_passport_account-Quiet type hashing w token password =
      search (quiet_rules, identity_of-Quiet, create_account-Quiet, drop-Quiet, publish-Quiet) depth
        24
