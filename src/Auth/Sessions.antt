-- ===== src/Auth/Sessions.antt =====
-- The sessions of src/modules/auth/services/auth.service.ts as a client of the service sees them: for
-- each refresh token, the grant that it stands for. What each method does to the grants.
pub mod Quiet
pub mod Others
pub mod Registration
pub mod Writers
pub mod Simulation
pub mod Refinement
use sohcahtoa_api.Prelude.{
  ℕ, ◌+◌, ◌==◌, ltb, Bool, true, false, not, ◌&&◌, is_some, Option, none, some, List, [], ◌∷◌, Text,
  if◌then◌else◌,
}
use sohcahtoa_api.Errors.{Error, Result, ok, err}
use sohcahtoa_api.Exec.{Exec, pure, ◌>>=◌}
use sohcahtoa_api.Auth.Rows.{
  CustomerType, OtpPurpose, Session, CacheKey, reset_key, Redis, Hashing, World, AuthDb,
}
use sohcahtoa_api.Auth.Tables.{user_by, session_by_token}
use sohcahtoa_api.Auth.Otp.{cached, send_otp, validate_otp}
use sohcahtoa_api.Auth.Login.{
  TokenPayload, LoginResponse, session_duration, login, logout, refresh_token,
}
use sohcahtoa_api.Auth.Passwords.{
  user_in, forgot_password, verify_reset_otp, reset_password, change_agent_password,
}
use sohcahtoa_api.Auth.Signup.{Channel, signup, verify_bvn_for_signup, verify_passport_for_signup}
use sohcahtoa_api.Auth.Onboarding.{
  send_bvn_verification_otp, send_passport_verification_otp, send_nigerian_email_otp,
  validate_bvn_otp, validate_nigerian_email_otp, validate_passport_otp, create_nigerian_account,
  create_passport_account,
}
use sohcahtoa_api.Auth.Kyc.{verify_kyc}
use sohcahtoa_api.Auth.Agents.{login_agent, verify_agent_login, create_agent_password}

pub record Grant : Type 0 where
  pub session : ℕ
  pub user : ℕ
  pub expires_at : ℕ

abbrev pub grant_of : Option Session → Option Grant
grant_of none = none
grant_of (some s) =
    if s.is_active
    then some (record { session = s.id; user = s.user_id; expires_at = s.expires_at })
    else none

-- the grant of a token
abbrev pub granted : {S : Type 0} → ℕ → AuthDb S → Option Grant
granted token db = grant_of (session_by_token token db)

-- whether a grant can be used
abbrev pub is_usable : {S : Type 0} → ℕ → AuthDb S → Option Grant → Bool
is_usable now db none = false
is_usable now db (some g) = not (ltb g.expires_at now) && is_some (user_by g.user db)

-- What a method may do to the grants.
pub data Change : Type 0 where
  unchanged : Change
  opened : ℕ → Grant → Change
  closed : ℕ → Change
  closed_all : ℕ → Change

abbrev pub revoke : (Grant → Bool) → Option Grant → Option Grant
revoke test none = none
revoke test (some g) = if test g then none else some g

abbrev pub apply : Change → ℕ → Option Grant → Option Grant
apply unchanged token g = g
apply (opened new grant) token g = if new == token then some grant else g
apply (closed session) token g = revoke (λ x. x.session == session) g
apply (closed_all user) token g = revoke (λ x. x.user == user) g

pub data AuthCall : Type 0 where
  call_login : Text → Text → AuthCall
  call_logout : ℕ → AuthCall
  call_refresh_token : ℕ → AuthCall
  call_send_otp : Text → Text → OtpPurpose → AuthCall
  call_validate_otp : Text → Text → OtpPurpose → AuthCall
  call_forgot_password : Text → AuthCall
  call_verify_reset_otp : Text → Text → AuthCall
  call_reset_password : ℕ → Text → AuthCall
  call_change_agent_password : ℕ → Text → Text → Text → AuthCall
  call_login_agent : Text → Text → AuthCall
  call_verify_agent_login : Text → Text → AuthCall
  call_create_agent_password : Text → Text → Text → Text → AuthCall
  call_signup : Text → Text → Text → Text → Text → AuthCall
  call_verify_bvn_for_signup : Text → AuthCall
  call_verify_passport_for_signup : Text → Text → AuthCall
  call_send_bvn_verification_otp call_send_passport_verification_otp : ℕ → Channel → AuthCall
  call_send_nigerian_email_otp : ℕ → AuthCall
  call_validate_bvn_otp call_validate_passport_otp : ℕ → Text → AuthCall
  call_validate_nigerian_email_otp : ℕ → Text → AuthCall
  call_create_nigerian_account call_create_tourist_account : ℕ → Text → AuthCall
  call_create_expatriate_account : ℕ → Text → AuthCall
  call_verify_kyc : ℕ → Option Text → Option Text → AuthCall

-- the answers that carry a session, and the others
pub data Reply : Type 0 where
  logged_in : LoginResponse → Reply
  refreshed : TokenPayload → Reply
  answered : Reply

abbrev pub new_grant : World → LoginResponse → Change
new_grant w r = opened r.refresh_token (record {
  session = r.access_token.session_id;
  user = r.user.id;
  expires_at = w.now + session_duration;
})

abbrev pub login_change : World → Reply → Change
login_change w (logged_in r) = new_grant w r
login_change w _ = unchanged

abbrev pub reset_change : Option ℕ → Change
reset_change none = unchanged
reset_change (some user) = closed_all user

abbrev pub on_ok : {A : Type 0} → (A → Change) → Result A → Change
on_ok change (ok a) = change a
on_ok change (err e) = unchanged

module _ {S : Type 0} (redis : Redis S) (hashing : Hashing) where
  unfoldable pub perform : World → AuthCall → Exec (AuthDb S) Reply
  perform w (call_login email password) = do r ← login hashing w email password; pure (logged_in r)
  perform w (call_logout session) = do u ← logout session; pure answered
  perform w (call_refresh_token token) = do t ← refresh_token w token; pure (refreshed t)
  perform w (call_send_otp email phone purpose) = do
    otp ← send_otp redis w email phone purpose
    pure answered
  perform w (call_validate_otp email otp purpose) = do
    valid ← validate_otp redis w email otp purpose
    pure answered
  perform w (call_forgot_password email) = do otp ← forgot_password redis w email; pure answered
  perform w (call_verify_reset_otp email otp) = do
    token ← verify_reset_otp redis w email otp
    pure answered
  perform w (call_reset_password token password) = do
    u ← reset_password redis hashing w token password
    pure answered
  perform w (call_change_agent_password id current password confirmation) = do
    u ← change_agent_password hashing w id current password confirmation
    pure answered
  perform w (call_login_agent email password) = do
    p ← login_agent redis hashing w email password
    pure answered
  perform w (call_verify_agent_login email otp) = do
    r ← verify_agent_login redis w email otp
    pure (logged_in r)
  perform w (call_create_agent_password email password confirmation otp) = do
    u ← create_agent_password redis hashing w email password confirmation otp
    pure answered
  perform w (call_signup email phone password first last) = do
    id ← signup redis hashing w email phone password first last
    pure answered
  perform w (call_verify_bvn_for_signup bvn) = do
    token ← verify_bvn_for_signup redis w bvn
    pure answered
  perform w (call_verify_passport_for_signup url number) = do
    token ← verify_passport_for_signup redis w url number
    pure answered
  perform w (call_send_bvn_verification_otp token channel) = do
    otp ← send_bvn_verification_otp redis w token channel
    pure answered
  perform w (call_send_passport_verification_otp token channel) = do
    otp ← send_passport_verification_otp redis w token channel
    pure answered
  perform w (call_send_nigerian_email_otp token) = do
    otp ← send_nigerian_email_otp redis w token
    pure answered
  perform w (call_validate_bvn_otp token otp) = do
    i ← validate_bvn_otp redis w token otp
    pure answered
  perform w (call_validate_passport_otp token otp) = do
    i ← validate_passport_otp redis w token otp
    pure answered
  perform w (call_validate_nigerian_email_otp token otp) = do
    u ← validate_nigerian_email_otp redis w token otp
    pure answered
  perform w (call_create_nigerian_account token password) = do
    id ← create_nigerian_account redis hashing w token password
    pure answered
  perform w (call_create_tourist_account token password) = do
    id ← create_passport_account redis CustomerType.tourist hashing w token password
    pure answered
  perform w (call_create_expatriate_account token password) = do
    id ← create_passport_account redis CustomerType.expatriate hashing w token password
    pure answered
  perform w (call_verify_kyc user bvn passport) = do u ← verify_kyc user bvn passport; pure answered

  -- what a call that succeeds means for the grants
  abbrev pub meaning : World → AuthCall → AuthDb S → Reply → Change
  meaning w (call_login email password) db = login_change w
  meaning w (call_verify_agent_login email otp) db = login_change w
  meaning w (call_logout session) db = λ _. closed session
  meaning w (call_reset_password token password) db =
      λ _. reset_change (user_in (cached redis w (reset_key token) db))
  meaning w (call_change_agent_password id current password confirmation) db = λ _. closed_all id
  meaning w _ db = λ _. unchanged

  -- the specification: the grant of a token after some calls
  unfoldable pub spec_run : List (World × AuthCall) → ℕ → AuthDb S → Option Grant → Option Grant
  unfolding perform
  spec_run [] token db g = g
  spec_run ((w, call) ∷ rest) token db g =
      spec_run rest token (perform w call db).1
        (apply (on_ok (meaning w call db) (perform w call db).0) token g)

  unfoldable pub run : List (World × AuthCall) → AuthDb S → AuthDb S
  unfolding perform
  run [] db = db
  run ((w, call) ∷ rest) db = run rest (perform w call db).1
