-- ===== src/Auth/Tables.antt =====
-- Reads and writes of the authentication service's tables: lookups by unique columns, `create` with
-- P2002 on a unique column, `update` with P2025 on a missing key, and `upsert`.
use sohcahtoa_api.Prelude.{
  ℕ, ◌==◌, Bool, false, ◌&&◌, ◌||◌, Option, none, some, List, [], ◌∷◌, ◌++◌, String, Text, text_eq,
  find, any, if◌then◌else◌,
}
use sohcahtoa_api.Errors.{
  Error, ok, err, app, unauthorized, duplicate_entry, prisma, unique_violation,
}
use sohcahtoa_api.Exec.{Exec}
use sohcahtoa_api.Table.{find_unique, modify_unique, modify_where}
use sohcahtoa_api.Auth.Rows.{User, UserCredential, UserKyc, Session, Agent, AuthEvent, AuthDb}

-- new UnauthorizedError(message), new DuplicateError(message)
abbrev pub unauthorized_error : String → Error
unauthorized_error message = app unauthorized message 401

abbrev pub duplicate_error : String → Error
duplicate_error message = app duplicate_entry message 409

abbrev pub has_text : Text → Option Text → Bool
has_text text none = false
has_text text (some t) = text_eq t text

abbrev pub same_number : Option Text → Option Text → Bool
same_number none other = false
same_number (some t) other = has_text t other

abbrev repeats_bvn : Option UserKyc → List UserKyc → Bool
repeats_bvn none kycs = false
repeats_bvn (some kyc) kycs = any (λ k. same_number kyc.bvn k.bvn) kycs

abbrev row_of : Option UserKyc → List UserKyc
row_of none = []
row_of (some kyc) = kyc ∷ []

module _ {S : Type 0} where
  abbrev pub user_by : ℕ → AuthDb S → Option User
  user_by id db = find_unique (λ u. u.id) id db.users

  abbrev pub user_by_email : Text → AuthDb S → Option User
  user_by_email email db = find (λ u. text_eq u.email email) db.users

  -- findFirst({ where: { OR: [{ email }, { phoneNumber }] } })
  abbrev pub user_by_contact : Text → Text → AuthDb S → Option User
  user_by_contact email phone db =
      find (λ u. text_eq u.email email || text_eq u.phone_number phone) db.users

  abbrev pub credential_of : ℕ → AuthDb S → Option UserCredential
  credential_of user db = find_unique (λ c. c.user_id) user db.credentials

  abbrev pub session_by_token : ℕ → AuthDb S → Option Session
  session_by_token token db = find_unique (λ s. s.refresh_token) token db.sessions

  abbrev pub agent_by_email : Text → AuthDb S → Option Agent
  agent_by_email email db = find (λ a. text_eq a.email email) db.agents

  abbrev pub kyc_by_bvn : Text → AuthDb S → Option UserKyc
  kyc_by_bvn bvn db = find (λ k. has_text bvn k.bvn) db.kycs

  abbrev pub kyc_by_passport : Text → AuthDb S → Option UserKyc
  kyc_by_passport number db = find (λ k. has_text number k.passport_number) db.kycs

  abbrev pub publish : AuthEvent → AuthDb S → AuthDb S
  publish e db = record db { events = db.events ++ e ∷ [] }

  abbrev pub set_credential : ℕ → (UserCredential → UserCredential) → AuthDb S → AuthDb S
  set_credential user f db = record db {
    credentials = modify_unique (λ c. c.user_id) user f db.credentials;
  }

  abbrev upsert : Option UserCredential → UserCredential → AuthDb S → AuthDb S
  upsert none row db = record db { credentials = db.credentials ++ row ∷ [] }
  upsert (some old) row db =
      set_credential old.user_id (λ c. record c { password_hash = row.password_hash }) db

  -- userCredential.upsert({ where: { userId }, update: { passwordHash }, create })
  unfoldable pub upsert_credential : ℕ → ℕ → Text → AuthDb S → AuthDb S
  upsert_credential id user hash db =
      upsert (credential_of user db)
        (record {
          id = id;
          user_id = user;
          password_hash = hash;
          failed_attempts = 0;
          locked_until = none;
        })
        db

  unfoldable pub create_session : Session → Exec (AuthDb S) Session
  create_session row db =
      if any (λ s. s.id == row.id || s.refresh_token == row.refresh_token) db.sessions
      then (err (prisma unique_violation), db)
      else (ok row, record db { sessions = db.sessions ++ row ∷ [] })

  -- session.updateMany({ where: { userId, isActive: true }, data: { isActive: false } })
  unfoldable pub close_sessions : ℕ → AuthDb S → AuthDb S
  close_sessions user db = record db {
    sessions =
        modify_where (λ s. s.user_id == user && s.is_active) (λ s. record s { is_active = false })
          db.sessions;
  }

  -- user.create with its credentials, its profile and perhaps its KYC row, in one write
  unfoldable pub create_account : User → UserCredential → Option UserKyc → Exec (AuthDb S) User
  create_account user credential kyc db =
      if any (λ u. text_eq u.email user.email || text_eq u.phone_number user.phone_number) db.users
        || repeats_bvn kyc db.kycs
      then (err (prisma unique_violation), db)
      else (
        ok user,
        record db {
          users = db.users ++ user ∷ [];
          credentials = db.credentials ++ credential ∷ [];
          kycs = db.kycs ++ row_of kyc;
        },
      )
