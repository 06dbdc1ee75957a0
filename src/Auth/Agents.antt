-- ===== src/Auth/Agents.antt =====
-- loginAgent, verifyAgentLogin and createAgentPassword of
-- src/modules/auth/services/auth.service.ts. An agent's password that is not set is none.
use sohcahtoa_api.Prelude.{
  [], ◌∷◌, ltb, false, not, ◌||◌, Option, none, some, is_some, Text, text_eq, is_blank, length,
  if◌then◌else◌,
}
use sohcahtoa_api.Errors.{invalid, other}
use sohcahtoa_api.Exec.{Exec, pure, raise, gets, modify, raise_if, or_raise, ◌>>=◌, ◌>>◌}
use sohcahtoa_api.Validators.{validate_email, is_strong, is_space}
use sohcahtoa_api.Auth.Rows.{
  UserRole, OtpPurpose, User, UserCredential, Agent, Redis, Hashing, World, AuthDb,
}
use sohcahtoa_api.Auth.Tables.{
  unauthorized_error, user_by_email, agent_by_email, upsert_credential, create_account,
}
use sohcahtoa_api.Auth.Otp.{send_otp, validate_otp}
use sohcahtoa_api.Auth.Login.{LoginResponse, open_session}
use sohcahtoa_api.Auth.Passwords.{set_agent_password}

-- the two answers of loginAgent: both send a one-time password
pub data AgentPrompt : Type 0 where
  requires_password_set requires_verification : Text → AgentPrompt

-- (agent.name || '').trim().split(/\s+/): the first word, and the others joined by a space
unfoldable pub skip_spaces : Text → Text
skip_spaces [] = []
skip_spaces (c ∷ cs) = let rest = skip_spaces cs in if is_space c then rest else c ∷ cs

unfoldable pub first_word : Text → Text
first_word [] = []
first_word (c ∷ cs) = let rest = first_word cs in if is_space c then [] else c ∷ rest

unfoldable pub after_word : Text → Text
after_word [] = []
after_word (c ∷ cs) = let rest = after_word cs in if is_space c then cs else rest

abbrev spaced : Text → Text
spaced [] = []
spaced (d ∷ ds) = if is_space d then d ∷ ds else 32 ∷ d ∷ ds

-- runs of spaces become one space, and none is left at the end
unfoldable pub squeeze : Text → Text
squeeze [] = []
squeeze (c ∷ cs) = let rest = squeeze cs in if is_space c then spaced rest else c ∷ rest

unfoldable pub first_name_of : Text → Text
unfolding skip_spaces first_word
first_name_of name =
    let word = first_word (skip_spaces name) in if is_blank word then name else word

unfoldable pub last_name_of : Text → Text
unfolding skip_spaces after_word squeeze
last_name_of name = squeeze (skip_spaces (after_word (skip_spaces name)))

abbrev pub user_of_agent : World → Agent → User
user_of_agent w a = record {
  id = w.fresh_id;
  email = a.email;
  phone_number = a.phone_number;
  role = UserRole.agent;
  customer_type = none;
  is_active = a.is_active;
  email_verified = false;
  first_name = first_name_of a.name;
  last_name = last_name_of a.name;
}

abbrev credential_of_agent : World → Text → UserCredential
credential_of_agent w hash = record {
  id = w.fresh_id;
  user_id = w.fresh_id;
  password_hash = hash;
  failed_attempts = 0;
  locked_until = none;
}

module _ {S : Type 0} where
  -- prisma refuses a passwordHash that is null
  abbrev pub create_agent_user : Option Text → World → Agent → Exec (AuthDb S) User
  create_agent_user none w a = raise (other "Argument `passwordHash` must not be null.")
  create_agent_user (some hash) w a =
      create_account (user_of_agent w a) (credential_of_agent w hash) none

  abbrev pub agent_account : Option User → World → Agent → Exec (AuthDb S) User
  agent_account (some u) w a = pure u
  agent_account none w a = create_agent_user a.password w a

module _ {S : Type 0} (redis : Redis S) where
  abbrev pub prompt : Option Text → Hashing → World → Agent → Text → Exec (AuthDb S) AgentPrompt
  prompt none hashing w a password = do
    otp ← send_otp redis w a.email a.phone_number OtpPurpose.agent_set_password
    pure (requires_password_set otp)
  prompt (some hash) hashing w a password = do
    raise_if (not (hashing.compare password hash)) (unauthorized_error "Invalid email or password")
    otp ← send_otp redis w a.email a.phone_number OtpPurpose.login
    pure (requires_verification otp)

  unfoldable pub login_agent : Hashing → World → Text → Text → Exec (AuthDb S) AgentPrompt
  login_agent hashing w email password = do
    found ← gets (agent_by_email email)
    a ← or_raise found (unauthorized_error "Invalid email or password")
    raise_if (not a.is_active) (unauthorized_error "Account is deactivated")
    prompt a.password hashing w a password

  unfoldable pub verify_agent_login : World → Text → Text → Exec (AuthDb S) LoginResponse
  verify_agent_login w email otp = do
    raise_if (is_blank email || is_blank otp) (invalid "email and otp are required")
    valid ← validate_otp redis w email otp OtpPurpose.login
    raise_if (not valid) (invalid "Invalid or expired OTP")
    found ← gets (agent_by_email email)
    a ← or_raise found (unauthorized_error "Invalid email or password")
    raise_if (not a.is_active) (unauthorized_error "Account is deactivated")
    existing ← gets (user_by_email email)
    user ← agent_account existing w a
    open_session w user

  abbrev pub sync_credential : Option User → World → Text → AuthDb S → AuthDb S
  sync_credential none w hash db = db
  sync_credential (some u) w hash db = upsert_credential w.fresh_id u.id hash db

  unfoldable pub create_agent_password :
      Hashing → World → Text → Text → Text → Text → Exec (AuthDb S) (Unit {0})
  create_agent_password hashing w email password confirmation otp = do
    raise_if (is_blank email || not (validate_email email)) (invalid "Invalid email format")
    raise_if (is_blank password || is_blank confirmation)
        (invalid "password and confirmPassword are required")
    raise_if (not (text_eq password confirmation)) (invalid "Passwords do not match")
    raise_if (ltb (length password) 8 || ltb 12 (length password))
        (invalid "Password must be between 8 and 12 characters long")
    raise_if (not (is_strong password)) (invalid "Password does not meet requirements")
    found ← gets (agent_by_email email)
    a ← or_raise found (unauthorized_error "Agent not found")
    raise_if (not a.is_active) (unauthorized_error "Account is deactivated")
    raise_if (is_some a.password)
        (invalid "Password has already been set. Please use the login flow.")
    valid ← validate_otp redis w email otp OtpPurpose.agent_set_password
    raise_if (not valid) (invalid "Invalid or expired OTP")
    modify (set_agent_password a.id (hashing.hash w.salt password))
    existing ← gets (user_by_email a.email)
    modify (sync_credential existing w (hashing.hash w.salt password))
