-- ===== src/Auth/Sessions/Refinement.antt =====
-- The grants of tokens as an abstract specification of the sessions of
-- src/modules/auth/services/auth.service.ts, which the methods implement.
use sohcahtoa_api.Prelude.{ℕ, List, [], ◌∷◌, ◌≡◌, refl, ◌∙◌, ap}
use sohcahtoa_api.Errors.{succeeds}
use sohcahtoa_api.Exec.{result}
use sohcahtoa_api.Auth.Rows.{CustomerType, reset_key, Redis, Hashing, World, AuthDb}
use sohcahtoa_api.Auth.Tables.{session_by_token}
use sohcahtoa_api.Auth.Otp.{cached}
use sohcahtoa_api.Auth.Login.{refresh_token}
use sohcahtoa_api.Auth.Passwords.{user_in, reset_password}
use sohcahtoa_api.Auth.Sessions.{
  granted, unchanged, closed, closed_all, apply, on_ok, AuthCall, logged_in, refreshed, answered,
  login_change, reset_change, perform, meaning, spec_run, run, is_usable,
}
use sohcahtoa_api.Auth.Sessions.Quiet.{send_otp-Quiet, validate_otp-Quiet}
use sohcahtoa_api.Auth.Sessions.Others.{
  forgot_password-Quiet, verify_reset_otp-Quiet, login_agent-Quiet, create_agent_password-Quiet,
  verify_kyc-Quiet,
}
use sohcahtoa_api.Auth.Sessions.Registration.{
  signup-Quiet, verify_bvn_for_signup-Quiet, verify_passport_for_signup-Quiet,
  send_bvn_verification_otp-Quiet, send_passport_verification_otp-Quiet,
  send_nigerian_email_otp-Quiet, validate_bvn_otp-Quiet, validate_nigerian_email_otp-Quiet,
  validate_passport_otp-Quiet, create_nigerian_account-Quiet, create_passport_account-Quiet,
}
use sohcahtoa_api.Auth.Sessions.Simulation.{
  Simulates-Quiet, Simulates-reply, replied, logout-Simulates,
}
use sohcahtoa_api.Auth.Sessions.Writers.{
  quietly, refresh_of, refresh_of-succeeds, login-Simulates, refresh_token-Quiet,
  change_agent_password-Simulates, verify_agent_login-Simulates, reset_password-granted,
}

module _ {S : Type 0} (redis : Redis S) (hashing : Hashing) where
  -- each call does to the grants what it means
  perform_lem :
      (w : World) (call : AuthCall) (db : AuthDb S) (token : ℕ)
      → granted token (perform redis hashing w call db).1
        ≡ apply
            (on_ok (meaning redis hashing w call db) (perform redis hashing w call db).0)
            token
            (granted token db)
  unfolding perform
  perform_lem w (AuthCall.call_login email password) db token =
      (Simulates-reply (login_change w) _ logged_in (login-Simulates hashing w email password)).at
        db token
  perform_lem w (AuthCall.call_logout session) db token =
      (Simulates-reply (λ _. closed session) _ (λ _. answered) (logout-Simulates session)).at db
        token
  perform_lem w (AuthCall.call_verify_agent_login email otp) db token =
      (Simulates-reply (login_change w) _ logged_in
          (verify_agent_login-Simulates redis hashing w email otp)).at
        db token
  perform_lem w (AuthCall.call_change_agent_password id current password confirmation) db token =
      (Simulates-reply (λ _. closed_all id) _ (λ _. answered)
          (change_agent_password-Simulates hashing w id current password confirmation)).at
        db token
  perform_lem w (AuthCall.call_refresh_token t) db token =
      (Simulates-reply (λ _. unchanged) _ refreshed
          (Simulates-Quiet _ (refresh_token-Quiet w t))).at
        db token
  perform_lem w (AuthCall.call_reset_password t password) db token =
      replied (λ _. reset_change (user_in (cached redis w (reset_key t) db))) (λ _. answered)
        (reset_password redis hashing w t password db) token (granted token db)
        (reset_password-granted redis hashing w t password db token)
  perform_lem w (AuthCall.call_send_otp email phone purpose) db token =
      quietly (send_otp-Quiet redis w email phone purpose) db token
  perform_lem w (AuthCall.call_validate_otp email otp purpose) db token =
      quietly (validate_otp-Quiet redis w email otp purpose) db token
  perform_lem w (AuthCall.call_forgot_password email) db token =
      quietly (forgot_password-Quiet redis w email) db token
  perform_lem w (AuthCall.call_verify_reset_otp email otp) db token =
      quietly (verify_reset_otp-Quiet redis w email otp) db token
  perform_lem w (AuthCall.call_login_agent email password) db token =
      quietly (login_agent-Quiet redis hashing w email password) db token
  perform_lem w (AuthCall.call_create_agent_password email password confirmation otp) db token =
      quietly (create_agent_password-Quiet redis hashing w email password confirmation otp) db token
  perform_lem w (AuthCall.call_signup email phone password first last) db token =
      quietly (signup-Quiet redis hashing w email phone password first last) db token
  perform_lem w (AuthCall.call_verify_bvn_for_signup bvn) db token =
      quietly (verify_bvn_for_signup-Quiet redis w bvn) db token
  perform_lem w (AuthCall.call_verify_passport_for_signup url number) db token =
      quietly (verify_passport_for_signup-Quiet redis w url number) db token
  perform_lem w (AuthCall.call_send_bvn_verification_otp t channel) db token =
      quietly (send_bvn_verification_otp-Quiet redis w t channel) db token
  perform_lem w (AuthCall.call_send_passport_verification_otp t channel) db token =
      quietly (send_passport_verification_otp-Quiet redis w t channel) db token
  perform_lem w (AuthCall.call_send_nigerian_email_otp t) db token =
      quietly (send_nigerian_email_otp-Quiet redis w t) db token
  perform_lem w (AuthCall.call_validate_bvn_otp t otp) db token =
      quietly (validate_bvn_otp-Quiet redis w t otp) db token
  perform_lem w (AuthCall.call_validate_passport_otp t otp) db token =
      quietly (validate_passport_otp-Quiet redis w t otp) db token
  perform_lem w (AuthCall.call_validate_nigerian_email_otp t otp) db token =
      quietly (validate_nigerian_email_otp-Quiet redis w t otp) db token
  perform_lem w (AuthCall.call_create_nigerian_account t password) db token =
      quietly (create_nigerian_account-Quiet redis hashing w t password) db token
  perform_lem w (AuthCall.call_create_tourist_account t password) db token =
      quietly (create_passport_account-Quiet redis CustomerType.tourist hashing w t password) db
        token
  perform_lem w (AuthCall.call_create_expatriate_account t password) db token =
      quietly (create_passport_account-Quiet redis CustomerType.expatriate hashing w t password) db
        token
  perform_lem w (AuthCall.call_verify_kyc user bvn passport) db token =
      quietly (verify_kyc-Quiet user bvn passport) db token

  granted-run :
      (calls : List (World × AuthCall)) (db : AuthDb S) (token : ℕ)
      → granted token (run redis hashing calls db)
        ≡ spec_run redis hashing calls token db (granted token db)
  unfolding run spec_run
  granted-run [] db token = refl
  granted-run ((w, call) ∷ rest) db token =
      granted-run rest (perform redis hashing w call db).1 token
      ∙ ap (spec_run redis hashing rest token (perform redis hashing w call db).1)
          (perform_lem w call db token)

  refresh_token-succeeds :
      (w : World) (token : ℕ) (db : AuthDb S)
      → succeeds (result (refresh_token w token) db) ≡ is_usable w.now db (granted token db)
  unfolding refresh_token refresh_of
  refresh_token-succeeds w token db = refresh_of-succeeds w (session_by_token token db) db

  -- After any calls of the service, in whatever worlds and whether they succeed or fail, the grant of
  -- every token is the one that the specification gives, and a refresh of the token succeeds exactly
  -- if that grant is there, has not expired and its user exists. In the specification a login adds
  -- one grant, a logout and a change or a reset of a password revoke, and no other call and no
  -- failed call has an effect.
  pub sessions_refine :
      (calls : List (World × AuthCall)) (db : AuthDb S) (w : World) (token : ℕ)
      → let left = run redis hashing calls db in
        let grant = spec_run redis hashing calls token db (granted token db) in
        (granted token left ≡ grant)
        × (succeeds (result (refresh_token w token) left) ≡ is_usable w.now left grant)
  sessions_refine calls db w token =
      let left = run redis hashing calls db in
      let same = granted-run calls db token in
      (same, refresh_token-succeeds w token left ∙ ap (is_usable w.now left) same)
