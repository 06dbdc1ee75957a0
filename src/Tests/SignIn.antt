-- ===== src/Tests/SignIn.antt =====
-- Logins, one-time passwords, resets and registrations on concrete data.
use sohcahtoa_api.Prelude.{
  ◌≤◌, leb, true, false, none, some, List, [], ◌∷◌, Text, ◌≡◌, refl, All, length, arith,
  if◌then◌else◌,
}
use sohcahtoa_api.Errors.{ok, err, succeeds}
use sohcahtoa_api.Exec.{result, after}
use sohcahtoa_api.Cbn.Middleware.{KycStatus}
use sohcahtoa_api.Auth.Rows.{User, OtpPurpose, UserCredential, UserKyc, World, AuthDb, CustomerType}
use sohcahtoa_api.Prelude.{text_eq}
use sohcahtoa_api.Table.{find_unique, modify_unique}
use sohcahtoa_api.Validators.{validate_bvn, is_strong}
use sohcahtoa_api.Auth.Rows.{key_eq, CacheKey, CacheValue}
use sohcahtoa_api.Auth.Tables.{user_by, user_by_contact, credential_of, kyc_by_bvn}
use sohcahtoa_api.Auth.Otp.{send_otp, validate_otp, accept_contact, validate_log, cached, keep}
use sohcahtoa_api.Auth.Otp.Logs.{open_logs}
use sohcahtoa_api.Auth.Otp.Once.{validate_otp_once}
use sohcahtoa_api.Auth.Login.{judge_password, login, refresh_token}
use sohcahtoa_api.Auth.Login.Lockout.{HasAccount, Wrong, run_logins, locked_error, login_lockout}
use sohcahtoa_api.Auth.Passwords.{user_in, reset_password}
use sohcahtoa_api.Auth.Passwords.Reset.{fits, token_error, reset_password_lem}
use sohcahtoa_api.Auth.Sessions.{AuthCall, granted, is_usable, run, spec_run}
use sohcahtoa_api.Auth.Sessions.Refinement.{sessions_refine}
use sohcahtoa_api.Auth.Signup.{verify_bvn_for_signup}
use sohcahtoa_api.Auth.Onboarding.{create_nigerian_account}
use sohcahtoa_api.Auth.Onboarding.Signups.{account_without_otp, restored_is_refused}
use sohcahtoa_api.Tests.Platform.{
  Entry, read_entry, memory, salted, code, email, phone, password, bvn, identity, at_time, empty_db,
  user,
}

-- after a code was sent
abbrev sent_db : AuthDb (List Entry)
sent_db = after (send_otp memory (at_time 0) email [] OtpPurpose.password_reset) empty_db

abbrev again : AuthDb (List Entry)
again = after (validate_otp memory (at_time 1000) email code OtpPurpose.password_reset) sent_db

accepted :
    result (validate_otp memory (at_time 1000) email code OtpPurpose.password_reset) sent_db
    ≡ ok true
unfolding send_otp validate_otp read_entry text_eq accept_contact
accepted = refl

few : open_logs email code OtpPurpose.password_reset sent_db.otp_logs ≤ 1
unfolding send_otp text_eq
few = omega arith

validate_otp_once_example :
    result (validate_otp memory (at_time 2000) email code OtpPurpose.password_reset) again
    ≡ ok false
validate_otp_once_example =
    validate_otp_once memory code OtpPurpose.password_reset (at_time 1000) (at_time 2000) email
      sent_db (omega arith) few accepted

-- 654321
abbrev other_code : Text
other_code = 54 ∷ 53 ∷ 52 ∷ 51 ∷ 50 ∷ 49 ∷ []

-- two codes were sent to one email, and the first was accepted
abbrev resent_db : AuthDb (List Entry)
resent_db =
    after
      (send_otp memory (record (at_time 500) { otp = other_code; fresh_id = 901 }) email []
        OtpPurpose.password_reset)
      sent_db

abbrev superseded_db : AuthDb (List Entry)
superseded_db =
    after (validate_otp memory (at_time 1000) email code OtpPurpose.password_reset) resent_db

-- without the email it is accepted once more
superseded_code :
    result (validate_otp memory (at_time 2000) [] code OtpPurpose.password_reset) superseded_db
    ≡ ok true
unfolding send_otp validate_otp read_entry text_eq accept_contact validate_log modify_unique
superseded_code = refl

abbrev credential : UserCredential
credential = record {
  id = 5;
  user_id = 1;
  password_hash = 7 ∷ password;
  failed_attempts = 0;
  locked_until = none;
}

abbrev user_db : AuthDb (List Entry)
user_db = record empty_db { users = user ∷ []; credentials = credential ∷ [] }

has_account : HasAccount {S = List Entry} salted email user credential user_db
unfolding text_eq find_unique
has_account = record { found = refl; active = refl; credentials = refl }

abbrev guesses : List (World × Text)
guesses =
    (at_time 10, code)
    ∷ (at_time 20, code)
    ∷ (at_time 30, code)
    ∷ (at_time 40, code)
    ∷ (at_time 50, code)
    ∷ []

All-Wrong : All (Wrong salted (7 ∷ password) 10) guesses
unfolding text_eq
All-Wrong = ground arith

login_lockout_example :
    let left = run_logins {S = List Entry} salted email guesses user_db in
    login salted (at_time 1000000) email password left ≡ (
      if leb 5 (length guesses)
      then (err locked_error, left)
      else judge_password (salted.compare password (7 ∷ password)) (at_time 1000000) user left)
login_lockout_example =
    login_lockout salted email user (7 ∷ password) 10 credential user_db has_account refl refl refl
      guesses All-Wrong (at_time 1000000) password (omega arith)

-- a database in which a reset token was issued
abbrev reset_db : AuthDb (List Entry)
reset_db = keep memory (at_time 100) (CacheKey.reset_key 42) 600 (CacheValue.user_value 1) user_db

issued : user_in (cached memory (at_time 200) (CacheKey.reset_key 42) reset_db) ≡ some 1
unfolding read_entry key_eq
issued = refl

strong : is_strong password ≡ true
unfolding is_strong
strong = refl

known_user : user_by 1 reset_db ≡ some user
unfolding find_unique
known_user = refl

reset_password_lem_example :
    let left = after (reset_password memory salted (at_time 200) 42 password) reset_db in
    (result (reset_password memory salted (at_time 200) 42 password) reset_db ≡ ok tt)
    × (fits salted password (credential_of 1 left) ≡ true)
    × (reset_password memory salted (at_time 300) 42 code left ≡ (err token_error, left))
reset_password_lem_example =
    reset_password_lem memory salted (at_time 200) (at_time 300) 42 1 password code user reset_db
      issued strong known_user

abbrev calls : List (World × AuthCall)
calls =
    (at_time 100, AuthCall.call_login email password)
    ∷ (at_time 200, AuthCall.call_reset_password 42 password)
    ∷ []

sessions_refine_example :
    let left = run memory salted calls reset_db in
    let grant = spec_run memory salted calls 800 reset_db (granted 800 reset_db) in
    (granted 800 left ≡ grant)
    × (succeeds (result (refresh_token (at_time 300) 800) left) ≡ is_usable 300 left grant)
sessions_refine_example = sessions_refine memory salted calls reset_db (at_time 300) 800

good_bvn : validate_bvn bvn ≡ true
unfolding validate_bvn
good_bvn = refl

account_without_otp_example :
    let left = after (verify_bvn_for_signup memory (at_time 0) bvn) empty_db in
    let call = create_nigerian_account memory salted (at_time 1000) 900 password in
    (result call left ≡ ok 900)
    × ((after call left).otp_logs ≡ empty_db.otp_logs)
    × ((u : User) × (user_by_contact email phone (after call left) ≡ some u)
        × (u.email ≡ email)
        × (u.phone_number ≡ phone)
        × (u.first_name ≡ identity.first_name)
        × (u.last_name ≡ identity.last_name)
        × (u.email_verified ≡ true)
        × (u.customer_type ≡ some CustomerType.nigerian_citizen))
account_without_otp_example =
    account_without_otp memory salted (at_time 0) (at_time 1000) bvn password identity empty_db refl
      good_bvn refl refl strong (omega arith)

abbrev unfinished_kyc : UserKyc
unfinished_kyc = record {
  user_id = 1;
  status = KycStatus.in_progress;
  bvn = some bvn;
  bvn_verified = false;
  passport_number = none;
  passport_document_url = none;
  passport_verified = false;
}

abbrev unfinished_db : AuthDb (List Entry)
unfinished_db = record user_db { kycs = unfinished_kyc ∷ [] }

known_bvn : kyc_by_bvn bvn unfinished_db ≡ some unfinished_kyc
unfolding text_eq
known_bvn = refl

known_owner : user_by 1 unfinished_db ≡ some user
unfolding find_unique
known_owner = refl

restored_is_refused_example :
    let left = after (verify_bvn_for_signup memory (at_time 0) bvn) unfinished_db in
    (result (verify_bvn_for_signup memory (at_time 0) bvn) unfinished_db ≡ ok 900)
    × (succeeds (result (create_nigerian_account memory salted (at_time 1000) 900 password) left)
        ≡ false)
restored_is_refused_example =
    restored_is_refused memory salted (at_time 0) (at_time 1000) bvn password unfinished_kyc user
      unfinished_db known_bvn refl known_owner
