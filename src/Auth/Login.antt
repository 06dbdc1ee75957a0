-- ===== src/Auth/Login.antt =====
-- login, logout and refreshToken of src/modules/auth/services/auth.service.ts. The signed tokens are
-- their payloads; the audit trail, the user agent and the address are left out.
pub mod Lockout
use sohcahtoa_api.Prelude.{
  ℕ, ◌+◌, ◌*◌, ltb, leb, Bool, true, false, not, ◌||◌, Option, none, some, Text, if◌then◌else◌,
}
use sohcahtoa_api.Errors.{Error, ok, err, prisma, record_not_found}
use sohcahtoa_api.Exec.{Exec, pure, raise, gets, modify, raise_if, or_raise, ◌>>=◌, ◌>>◌}
use sohcahtoa_api.Table.{find_unique, modify_unique}
use sohcahtoa_api.Auth.Rows.{UserRole, User, UserCredential, Session, Hashing, World, AuthDb}
use sohcahtoa_api.Auth.Tables.{
  unauthorized_error, user_by, user_by_email, credential_of, session_by_token, set_credential,
  create_session,
}

abbrev pub max_login_attempts : ℕ
max_login_attempts = 5

-- LOCK_DURATION_MINUTES, in milliseconds
abbrev pub lock_duration : ℕ
lock_duration = 30 * 60 * 1000

-- seven days
abbrev pub session_duration : ℕ
session_duration = 7 * 24 * 60 * 60 * 1000

pub record TokenPayload : Type 0 where
  pub user_id : ℕ
  pub email : Text
  pub role : UserRole
  pub session_id : ℕ

pub record LoginResponse : Type 0 where
  pub access_token : TokenPayload
  pub refresh_token : ℕ
  pub user : User

abbrev pub after_now : ℕ → Option ℕ → Bool
after_now now none = false
after_now now (some t) = ltb now t

-- user.credentials.lockedUntil && user.credentials.lockedUntil > new Date()
abbrev pub is_locked : ℕ → UserCredential → Bool
is_locked now c = after_now now c.locked_until

unfoldable pub failed : ℕ → UserCredential → UserCredential
failed now c = record c {
  failed_attempts = c.failed_attempts + 1;
  locked_until =
      if leb max_login_attempts (c.failed_attempts + 1)
      then some (now + lock_duration)
      else c.locked_until;
}

abbrev pub cleared : UserCredential → UserCredential
cleared c = record c { failed_attempts = 0; locked_until = none }

abbrev pub new_session : World → User → Session
new_session w user = record {
  id = w.session_id;
  user_id = user.id;
  refresh_token = w.refresh_token;
  is_active = true;
  expires_at = w.now + session_duration;
}

abbrev pub payload : User → ℕ → TokenPayload
payload user session = record {
  user_id = user.id;
  email = user.email;
  role = user.role;
  session_id = session;
}

abbrev shut : Session → Session
shut s = record s { is_active = false }

-- !session.isActive || session.expiresAt < new Date()
abbrev pub is_over : ℕ → Session → Bool
is_over now s = not s.is_active || ltb s.expires_at now

module _ {S : Type 0} where
  unfoldable pub open_session : World → User → Exec (AuthDb S) LoginResponse
  unfolding create_session
  open_session w user = do
    s ← create_session (new_session w user)
    pure (record { access_token = payload user s.id; refresh_token = s.refresh_token; user = user })

  abbrev pub judge_password : Bool → World → User → Exec (AuthDb S) LoginResponse
  judge_password false w user = do
    modify (set_credential user.id (failed w.now))
    raise (unauthorized_error "Invalid email or password")
  judge_password true w user = do modify (set_credential user.id cleared); open_session w user

  unfoldable pub login : Hashing → World → Text → Text → Exec (AuthDb S) LoginResponse
  login hashing w email password = do
    found ← gets (user_by_email email)
    user ← or_raise found (unauthorized_error "Invalid email or password")
    credentials ← gets (credential_of user.id)
    c ← or_raise credentials (unauthorized_error "Invalid email or password")
    raise_if (is_locked w.now c)
        (unauthorized_error "Account is temporarily locked. Please try again later.")
    raise_if (not user.is_active) (unauthorized_error "Account is deactivated")
    judge_password (hashing.compare password c.password_hash) w user

  abbrev logout_of : Option Session → ℕ → Exec (AuthDb S) (Unit {0})
  logout_of none session db = (err (prisma record_not_found), db)
  logout_of (some s) session db =
      (ok tt, record db { sessions = modify_unique (λ s. s.id) session shut db.sessions })

  unfoldable pub logout : ℕ → Exec (AuthDb S) (Unit {0})
  logout session db = logout_of (find_unique (λ s. s.id) session db.sessions) session db

  unfoldable pub refresh_token : World → ℕ → Exec (AuthDb S) TokenPayload
  refresh_token w token = do
    found ← gets (session_by_token token)
    s ← or_raise found (unauthorized_error "Invalid or expired refresh token")
    raise_if (is_over w.now s) (unauthorized_error "Invalid or expired refresh token")
    owner ← gets (user_by s.user_id)
    user ← or_raise owner (prisma record_not_found)
    pure (payload user s.id)
