-- ===== src/Auth/Passwords.antt =====
-- forgotPassword, verifyResetOtp, resetPassword and changeAgentPassword of
-- src/modules/auth/services/auth.service.ts. A request's empty and missing texts are the empty text.
pub mod Reset
use sohcahtoa_api.Prelude.{
  ℕ, ◌*◌, [], Bool, true, false, not, ◌&&◌, ◌||◌, Option, none, some, is_some, Text, text_eq,
  is_blank, if◌then◌else◌,
}
use sohcahtoa_api.Errors.{Error, not_found_error, invalid}
use sohcahtoa_api.Exec.{Exec, pure, raise, gets, modify, raise_if, or_raise, ◌>>=◌, ◌>>◌}
use sohcahtoa_api.Table.{modify_unique}
use sohcahtoa_api.Validators.{validate_email, is_strong}
use sohcahtoa_api.Auth.Rows.{
  UserRole, OtpPurpose, User, Agent, CacheKey, reset_key, CacheValue, user_value, Redis, Hashing,
  World, AuthDb, AuthEvent, password_reset_requested, password_reset_completed,
}
use sohcahtoa_api.Auth.Tables.{
  unauthorized_error, user_by, user_by_email, agent_by_email, publish, upsert_credential,
  close_sessions,
}
use sohcahtoa_api.Auth.Otp.{cached, keep, drop, send_otp, validate_otp}

abbrev is_customer : UserRole → Bool
is_customer UserRole.customer = true
is_customer _ = false

abbrev pub is_agent : UserRole → Bool
is_agent UserRole.agent = true
is_agent _ = false

-- user && user.isActive && user.role === UserRole.CUSTOMER
abbrev pub may_reset : User → Bool
may_reset u = u.is_active && is_customer u.role

abbrev pub resettable : Option User → Option User
resettable none = none
resettable (some u) = if may_reset u then some u else none

abbrev pub user_in : Option CacheValue → Option ℕ
user_in (some (user_value id)) = some id
user_in _ = none

module _ {S : Type 0} (redis : Redis S) where
  -- the one-time password, where one was sent
  abbrev pub forgot : Option User → World → Text → Exec (AuthDb S) (Option Text)
  forgot none w email = pure none
  forgot (some u) w email = do
    otp ← send_otp redis w email [] OtpPurpose.password_reset
    modify (publish (password_reset_requested u.id))
    pure (some otp)

  unfoldable pub forgot_password : World → Text → Exec (AuthDb S) (Option Text)
  forgot_password w email = do
    raise_if (not (validate_email email)) (invalid "Invalid email format")
    found ← gets (user_by_email email)
    forgot (resettable found) w email

  -- the token with which the password is set
  unfoldable pub verify_reset_otp : World → Text → Text → Exec (AuthDb S) ℕ
  verify_reset_otp w email otp = do
    raise_if (not (validate_email email)) (invalid "Invalid email format")
    found ← gets (user_by_email email)
    user ← or_raise (resettable found) (invalid "Invalid email or OTP")
    valid ← validate_otp redis w email otp OtpPurpose.password_reset
    raise_if (not valid) (invalid "Invalid or expired OTP")
    modify (keep redis w (reset_key w.fresh_id) (10 * 60) (user_value user.id))
    pure w.fresh_id

  -- what resetPassword writes once its guards have passed
  unfoldable pub write_password : Hashing → World → ℕ → ℕ → Text → AuthDb S → AuthDb S
  write_password hashing w token user password db = publish (password_reset_completed user) (
      close_sessions user (
        upsert_credential w.fresh_id user (hashing.hash w.salt password)
          (drop redis (reset_key token) db)))

  unfoldable pub reset_password : Hashing → World → ℕ → Text → Exec (AuthDb S) (Unit {0})
  unfolding write_password
  reset_password hashing w token password = do
    found ← gets (cached redis w (reset_key token))
    user_id ←
        or_raise (user_in found)
          (invalid "Invalid or expired reset token. Please restart the forgot password flow.")
    raise_if (not (is_strong password)) (invalid "Password does not meet requirements")
    owner ← gets (user_by user_id)
    user ← or_raise owner (not_found_error "User not found")
    modify (write_password hashing w token user_id password)

abbrev pub agent_user : Option User → Option User
agent_user none = none
agent_user (some u) = if is_agent u.role then some u else none

abbrev pub password_of : Option Agent → Option (Agent × Text)
password_of none = none
password_of (some a) = elim a.password [ none ↦ none | some hash ↦ some (a, hash) ]

module _ {S : Type 0} where
  abbrev pub set_agent_password : ℕ → Text → AuthDb S → AuthDb S
  set_agent_password id hash db = record db {
    agents = modify_unique (λ a. a.id) id (λ a. record a { password = some hash }) db.agents;
  }

  unfoldable pub change_agent_password :
      Hashing → World → ℕ → Text → Text → Text → Exec (AuthDb S) (Unit {0})
  change_agent_password hashing w id current password confirmation = do
    raise_if (is_blank current || (is_blank password || is_blank confirmation))
        (invalid "currentPassword, newPassword and newPasswordConfirm are required")
    raise_if (not (text_eq password confirmation))
        (invalid "New password and confirmation do not match")
    raise_if (not (is_strong password)) (invalid "Password does not meet requirements")
    found ← gets (user_by id)
    user ← or_raise (agent_user found) (unauthorized_error "Only agents can change agent passwords")
    agent ← gets (agent_by_email user.email)
    known ← or_raise (password_of agent) (invalid "Agent password not set")
    raise_if (not (hashing.compare current known.1)) (invalid "current password not correct")
    modify (set_agent_password known.0.id (hashing.hash w.salt password))
    modify (upsert_credential w.fresh_id id (hashing.hash w.salt password))
    modify (close_sessions id)
