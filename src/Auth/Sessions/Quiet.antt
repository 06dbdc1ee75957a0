-- ===== src/Auth/Sessions/Quiet.antt =====
-- The methods of src/modules/auth/services/auth.service.ts that leave the table of sessions alone.
use sohcahtoa_api.Prelude.{
  ℕ, Bool, true, false, Option, none, some, ◌≡◌, refl, ◌∙◌, Text, Option-cases, Bool-cases, inl,
  inr, arith, is_blank,
}
use sohcahtoa_api.Errors.{Error, Result, ok, err}
use sohcahtoa_api.Exec.{Exec, pure, gets, modify, raise_if, or_raise, ◌>>=◌, continue}
use sohcahtoa_api.Auth.Rows.{
  OtpPurpose, User, UserCredential, UserKyc, OtpLog, CacheKey, Redis, World, AuthDb,
}
use sohcahtoa_api.Auth.Tables.{upsert_credential, create_account, credential_of}
use sohcahtoa_api.Auth.Otp.{
  accept_log, validate_log, verify_email, greet, send_otp, accept_code, validate_code,
  accept_contact, contact_or_log, validate_contact, validate_otp, drop, mark_used,
}

pub record Quiet {S A : Type 0} (m : Exec (AuthDb S) A) : Type 0 where
  pub at : (db : AuthDb S) → (m db).1.sessions ≡ db.sessions

module _ {S A : Type 0} where
  pub Quiet-pure : (a : A) → Quiet (pure {S = AuthDb S} a)
  Quiet-pure a = record { at = λ db. refl }

  pub Quiet-gets : (f : AuthDb S → A) → Quiet (gets f)
  Quiet-gets f = record { at = λ db. refl }

  pub Quiet-or_raise : (o : Option A) (e : Error) → Quiet (or_raise {S = AuthDb S} o e)
  Quiet-or_raise none e = record { at = λ db. refl }
  Quiet-or_raise (some a) e = record { at = λ db. refl }

module _ {S : Type 0} where
  pub Quiet-raise_if : (b : Bool) (e : Error) → Quiet (raise_if {S = AuthDb S} b e)
  Quiet-raise_if true e = record { at = λ db. refl }
  Quiet-raise_if false e = record { at = λ db. refl }

  pub Quiet-modify :
      (f : AuthDb S → AuthDb S)
      → ((db : AuthDb S) → (f db).sessions ≡ db.sessions)
      → Quiet (modify f)
  Quiet-modify f same = record { at = same }

module _ {S A B : Type 0} where
  continue-sessions :
      (k : A → Exec (AuthDb S) B)
      → ((a : A) → Quiet (k a))
      → (p : Result A × AuthDb S) → (continue k p).1.sessions ≡ p.1.sessions
  continue-sessions k quiet (ok a, db) = (quiet a).at db
  continue-sessions k quiet (err e, db) = refl

  pub Quiet-bind :
      (m : Exec (AuthDb S) A) (k : A → Exec (AuthDb S) B)
      → Quiet m
      → ((a : A) → Quiet (k a))
      → Quiet (m >>= k)
  Quiet-bind m k quiet later = record { at = λ db. continue-sessions k later (m db) ∙ quiet.at db }

pub ruleset quiet_rules = (Quiet-pure, Quiet-gets, Quiet-or_raise, Quiet-raise_if, Quiet-bind)

module _ {S : Type 0} where
  accept_log-Quiet :
      (found : Option OtpLog) (email otp : Text) (purpose : OtpPurpose)
      → Quiet (accept_log {S = S} found email otp purpose)
  accept_log-Quiet none email otp purpose = record { at = λ db. refl }
  accept_log-Quiet (some l) email otp purpose = record { at = λ db. refl }

  validate_log-Quiet :
      (w : World) (email otp : Text) (purpose : OtpPurpose)
      → Quiet (validate_log {S = S} w email otp purpose)
  unfolding validate_log
  validate_log-Quiet w email otp purpose = search (quiet_rules, accept_log-Quiet)

  verify_email-Quiet : (email : Text) → Quiet (verify_email {S = S} email)
  unfolding verify_email
  verify_email-Quiet email = record { at = λ db. ground arith }

  greet-Quiet : (purpose : OtpPurpose) (email : Text) → Quiet (greet {S = S} purpose email)
  greet-Quiet OtpPurpose.registration email = verify_email-Quiet email
  greet-Quiet OtpPurpose.login email = Quiet-pure tt
  greet-Quiet OtpPurpose.password_reset email = Quiet-pure tt
  greet-Quiet OtpPurpose.agent_set_password email = Quiet-pure tt
  greet-Quiet OtpPurpose.transaction_verification email = Quiet-pure tt

  pub create_account-Quiet :
      (user : User) (credential : UserCredential) (kyc : Option UserKyc)
      → Quiet (create_account {S = S} user credential kyc)
  unfolding create_account
  create_account-Quiet user credential kyc = record { at = λ db. ground arith }

  pub upsert_credential-sessions :
      (id user : ℕ) (hash : Text) (db : AuthDb S)
      → (upsert_credential id user hash db).sessions ≡ db.sessions
  unfolding upsert_credential
  upsert_credential-sessions id user hash db = elim (Option-cases (credential_of user db)) [
    | inl missing ↦ rw missing
    | inr (c, found) ↦ rw found
  ]

module _ {S : Type 0} (redis : Redis S) where
  pub send_otp-Quiet :
      (w : World) (email phone : Text) (purpose : OtpPurpose)
      → Quiet (send_otp redis w email phone purpose)
  unfolding send_otp
  send_otp-Quiet w email phone purpose = record { at = λ db. refl }

  accept_code-Quiet :
      (found : Option Text) (w : World) (otp : Text) (purpose : OtpPurpose)
      → Quiet (accept_code redis found w otp purpose)
  accept_code-Quiet none w otp purpose = validate_log-Quiet w _ otp purpose
  accept_code-Quiet (some e) w otp purpose = record { at = λ db. ground arith }

  drop-Quiet : (key : CacheKey) → Quiet (modify (drop redis key))
  drop-Quiet key = record { at = λ db. refl }

  mark_used-Quiet :
      (email otp : Text) (purpose : OtpPurpose)
      → Quiet (modify (mark_used {S = S} email otp purpose))
  mark_used-Quiet email otp purpose = record { at = λ db. refl }

  accept_contact-Quiet :
      (email otp : Text) (purpose : OtpPurpose) → Quiet (accept_contact redis email otp purpose)
  unfolding accept_contact
  accept_contact-Quiet email otp purpose =
      search (quiet_rules, drop-Quiet, mark_used-Quiet, greet-Quiet)

  contact_or_log-Quiet :
      (b : Bool) (w : World) (email otp : Text) (purpose : OtpPurpose)
      → Quiet (contact_or_log redis b w email otp purpose)
  contact_or_log-Quiet true w email otp purpose = accept_contact-Quiet email otp purpose
  contact_or_log-Quiet false w email otp purpose = validate_log-Quiet w email otp purpose

  validate_code-Quiet :
      (w : World) (otp : Text) (purpose : OtpPurpose) → Quiet (validate_code redis w otp purpose)
  unfolding validate_code
  validate_code-Quiet w otp purpose = search (quiet_rules, accept_code-Quiet)

  validate_contact-Quiet :
      (w : World) (email otp : Text) (purpose : OtpPurpose)
      → Quiet (validate_contact redis w email otp purpose)
  unfolding validate_contact
  validate_contact-Quiet w email otp purpose = search (quiet_rules, contact_or_log-Quiet)

  pub validate_otp-Quiet :
      (w : World) (email otp : Text) (purpose : OtpPurpose)
      → Quiet (validate_otp redis w email otp purpose)
  unfolding validate_otp
  validate_otp-Quiet w email otp purpose = record {
    at = λ db. elim (Bool-cases (is_blank email)) [
      | inl missing ↦ rw missing ((validate_code-Quiet w otp purpose).at db)
      | inr given ↦ rw given ((validate_contact-Quiet w email otp purpose).at db)
    ];
  }
