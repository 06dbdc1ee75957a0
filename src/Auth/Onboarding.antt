-- ===== src/Auth/Onboarding.antt =====
-- From the token of a verified BVN or passport to an account, in
-- src/modules/auth/services/auth.service.ts: the one-time passwords on the way, and the account. The
-- personal data of the answers is left out.
pub mod Steps
pub mod Signups
use sohcahtoa_api.Prelude.{
  ℕ, [], Bool, true, false, not, Option, none, some, is_some, Text, if◌then◌else◌,
}
use sohcahtoa_api.Errors.{Error, invalid}
use sohcahtoa_api.Exec.{Exec, pure, gets, modify, raise_if, or_raise, ◌>>=◌, ◌>>◌}
use sohcahtoa_api.Validators.{is_strong}
use sohcahtoa_api.Auth.Rows.{
  CustomerType, OtpPurpose, User, UserKyc, Identity, CacheKey, bvn_key, passport_key, Redis,
  Hashing, World, AuthDb, AuthEvent, user_registered, bvn_verified, kyc_submitted,
}
use sohcahtoa_api.Auth.Tables.{
  duplicate_error, user_by_contact, kyc_by_bvn, publish, create_account,
}
use sohcahtoa_api.Auth.Otp.{cached, drop, send_otp, validate_otp}
use sohcahtoa_api.Auth.Signup.{
  Channel, by_email, by_phone, identity_in, customer, credential, bvn_kyc, passport_kyc,
}

abbrev pub bvn_expired : Error
bvn_expired = invalid "BVN verification session expired. Please verify your BVN again."

abbrev pub passport_expired : Error
passport_expired =
    invalid "Passport verification session expired. Please verify your passport again."

abbrev pub verified_customer : World → CustomerType → Identity → User
verified_customer w type i =
    customer w i.email i.phone_number (some type) true i.first_name i.last_name

module _ {S : Type 0} (redis : Redis S) where
  -- what the token of a verification stands for
  unfoldable pub identity_of : World → CacheKey → Error → Exec (AuthDb S) Identity
  identity_of w key e = do found ← gets (cached redis w key); or_raise (identity_in found) e

  abbrev pub send_to : Channel → World → Identity → Exec (AuthDb S) Text
  send_to Channel.by_email w i = send_otp redis w i.email [] OtpPurpose.registration
  send_to Channel.by_phone w i = send_otp redis w [] i.phone_number OtpPurpose.registration

  unfoldable pub send_bvn_verification_otp : World → ℕ → Channel → Exec (AuthDb S) Text
  send_bvn_verification_otp w token channel = do
    i ← identity_of w (bvn_key token) bvn_expired
    send_to channel w i

  unfoldable pub send_passport_verification_otp : World → ℕ → Channel → Exec (AuthDb S) Text
  send_passport_verification_otp w token channel = do
    i ← identity_of w (passport_key token) passport_expired
    send_to channel w i

  unfoldable pub send_nigerian_email_otp : World → ℕ → Exec (AuthDb S) Text
  send_nigerian_email_otp w token = do
    i ← identity_of w (bvn_key token) bvn_expired
    send_otp redis w i.email [] OtpPurpose.registration

  -- the code alone is checked, for whomever it was sent to
  unfoldable pub check_code : World → Text → Exec (AuthDb S) (Unit {0})
  check_code w otp = do
    valid ← validate_otp redis w [] otp OtpPurpose.registration
    raise_if (not valid) (invalid "OTP validation failed")

  unfoldable pub validate_bvn_otp : World → ℕ → Text → Exec (AuthDb S) Identity
  validate_bvn_otp w token otp = do
    i ← identity_of w (bvn_key token) bvn_expired
    check_code w otp
    pure i

  unfoldable pub validate_nigerian_email_otp : World → ℕ → Text → Exec (AuthDb S) (Unit {0})
  validate_nigerian_email_otp w token otp = do
    i ← identity_of w (bvn_key token) bvn_expired
    check_code w otp

  unfoldable pub validate_passport_otp : World → ℕ → Text → Exec (AuthDb S) Identity
  validate_passport_otp w token otp = do
    i ← identity_of w (passport_key token) passport_expired
    check_code w otp
    pure i

  -- createNigerianAccount once the token has given the data
  unfoldable pub nigerian_account : Hashing → World → ℕ → Text → Identity → Exec (AuthDb S) ℕ
  nigerian_account hashing w token password i = do
    raise_if (not (is_strong password)) (invalid "Password does not meet requirements")
    existing ← gets (user_by_contact i.email i.phone_number)
    raise_if (is_some existing)
        (duplicate_error "User with this email or phone number already exists")
    known ← gets (kyc_by_bvn i.number)
    raise_if (is_some known) (duplicate_error "An account with this BVN already exists")
    user ←
        create_account (verified_customer w CustomerType.nigerian_citizen i)
          (credential hashing w password) (some (bvn_kyc w i))
    modify (drop redis (bvn_key token))
    modify (publish (user_registered user.id))
    modify (publish (bvn_verified user.id))
    modify (publish (kyc_submitted user.id))
    pure user.id

  unfoldable pub create_nigerian_account : Hashing → World → ℕ → Text → Exec (AuthDb S) ℕ
  create_nigerian_account hashing w token password = do
    i ← identity_of w (bvn_key token) bvn_expired
    nigerian_account hashing w token password i

  unfoldable pub create_passport_account :
      CustomerType → Hashing → World → ℕ → Text → Exec (AuthDb S) ℕ
  create_passport_account type hashing w token password = do
    i ← identity_of w (passport_key token) passport_expired
    raise_if (not (is_strong password)) (invalid "Password does not meet requirements")
    existing ← gets (user_by_contact i.email i.phone_number)
    raise_if (is_some existing)
        (duplicate_error "User with this email or phone number already exists")
    user ←
        create_account (verified_customer w type i) (credential hashing w password)
          (some (passport_kyc w i))
    modify (drop redis (passport_key token))
    modify (publish (user_registered user.id))
    modify (publish (kyc_submitted user.id))
    pure user.id

  unfoldable pub create_tourist_account : Hashing → World → ℕ → Text → Exec (AuthDb S) ℕ
  unfolding create_passport_account
  create_tourist_account = create_passport_account CustomerType.tourist

  unfoldable pub create_expatriate_account : Hashing → World → ℕ → Text → Exec (AuthDb S) ℕ
  unfolding create_passport_account
  create_expatriate_account = create_passport_account CustomerType.expatriate
