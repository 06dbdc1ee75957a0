-- ===== src/Auth/Otp.antt =====
-- sendOtp and validateOtp of src/modules/auth/services/auth.service.ts. An email that is not given
-- is the empty text, which the code treats alike. Mails are left out: sending one never throws.
pub mod Logs
pub mod Once
use sohcahtoa_api.Prelude.{
  ℕ, ◌+◌, ◌*◌, ◌==◌, ltb, Bool, true, false, not, ◌&&◌, ◌||◌, Option, none, some, List, [], ◌∷◌,
  ◌++◌, Text, text_eq, is_blank, find, any, if◌then◌else◌,
}
use sohcahtoa_api.Errors.{Error, ok, err, prisma, record_not_found, unauthorized, app}
use sohcahtoa_api.Exec.{Exec, pure, gets, modify, ◌>>=◌, ◌>>◌}
use sohcahtoa_api.Table.{modify_unique, modify_where}
use sohcahtoa_api.Auth.Rows.{
  OtpPurpose, purpose_eq, User, OtpLog, CacheKey, contact_key, code_key, CacheValue, otp_value,
  contact_value, Redis, World, AuthDb,
}

-- OTP_EXPIRY_MINUTES, in seconds
abbrev pub otp_seconds : ℕ
otp_seconds = 10 * 60

abbrev pub otp_in : Option CacheValue → Option Text
otp_in (some (otp_value otp)) = some otp
otp_in _ = none

abbrev pub contact_in : Option CacheValue → Option Text
contact_in (some (contact_value email)) = some email
contact_in _ = none

-- data.email || data.phoneNumber
abbrev pub or_text : Text → Text → Text
or_text email phone = if is_blank email then phone else email

abbrev pub used : OtpLog → OtpLog
used l = record l { is_used = true }

abbrev tried : OtpLog → OtpLog
tried l = record l { attempts = l.attempts + 1 }

abbrev pub has_code : Text → OtpPurpose → OtpLog → Bool
has_code otp purpose l = text_eq l.otp otp && purpose_eq l.purpose purpose

-- a filter by email, if one is given
abbrev pub is_for : Text → OtpLog → Bool
is_for email l = is_blank email || text_eq l.email email

abbrev pub is_open : Text → Text → OtpPurpose → OtpLog → Bool
is_open email otp purpose l = has_code otp purpose l && (is_for email l && not l.is_used)

-- cachedOtp && cachedOtp === data.otp
abbrev pub matches : Option Text → Text → Bool
matches none otp = false
matches (some cached_otp) otp = not (is_blank cached_otp) && text_eq cached_otp otp

module _ {S : Type 0} where
  abbrev pub mark_used : Text → Text → OtpPurpose → AuthDb S → AuthDb S
  mark_used email otp purpose db = record db {
    otp_logs = modify_where (is_open email otp purpose) used db.otp_logs;
  }

  abbrev pub mark_tried : Text → Text → OtpPurpose → AuthDb S → AuthDb S
  mark_tried email otp purpose db = record db {
    otp_logs = modify_where (λ l. has_code otp purpose l && is_for email l) tried db.otp_logs;
  }

  unfoldable pub verify_email : Text → Exec (AuthDb S) (Unit {0})
  verify_email email db =
      if any (λ u. text_eq u.email email) db.users
      then (
        ok tt,
        record db {
          users =
              modify_where (λ u. text_eq u.email email) (λ u. record u { email_verified = true })
                db.users;
        },
      )
      else (err (prisma record_not_found), db)

  abbrev pub accept_log : Option OtpLog → Text → Text → OtpPurpose → Exec (AuthDb S) Bool
  accept_log none email otp purpose = do modify (mark_tried email otp purpose); pure false
  accept_log (some l) email otp purpose = do
    modify (λ db. record db { otp_logs = modify_unique (λ l. l.id) l.id used db.otp_logs })
    pure true

  -- the database, where neither key of the cache answered
  unfoldable pub validate_log : World → Text → Text → OtpPurpose → Exec (AuthDb S) Bool
  validate_log w email otp purpose = do
    found ←
        gets (λ db. find (λ l. is_open email otp purpose l && ltb w.now l.expires_at) db.otp_logs)
    accept_log found email otp purpose

  abbrev pub greet : OtpPurpose → Text → Exec (AuthDb S) (Unit {0})
  greet OtpPurpose.registration email = verify_email email
  greet _ email = pure tt

module _ {S : Type 0} (redis : Redis S) where
  abbrev pub cached : World → CacheKey → AuthDb S → Option CacheValue
  cached w key db = redis.get w.now key db.cache

  abbrev pub keep : World → CacheKey → ℕ → CacheValue → AuthDb S → AuthDb S
  keep w key seconds value db = record db { cache = redis.setex w.now key seconds value db.cache }

  abbrev pub drop : CacheKey → AuthDb S → AuthDb S
  drop key db = record db { cache = redis.del key db.cache }

  unfoldable pub send_otp : World → Text → Text → OtpPurpose → Exec (AuthDb S) Text
  send_otp w email phone purpose = do
    modify (λ db. record db {
      otp_logs =
          db.otp_logs
          ++ record {
            id = w.fresh_id;
            email = email;
            phone_number = phone;
            otp = w.otp;
            purpose = purpose;
            is_used = false;
            attempts = 0;
            expires_at = w.now + otp_seconds * 1000;
          }
            ∷ [];
    })
    modify (keep w (contact_key (or_text email phone) purpose) otp_seconds (otp_value w.otp))
    modify (keep w (code_key w.otp purpose) otp_seconds (contact_value email))
    pure w.otp

  abbrev drop_contact : Text → OtpPurpose → AuthDb S → AuthDb S
  drop_contact email purpose db = if is_blank email then db else drop (contact_key email purpose) db

  abbrev pub accept_code : Option Text → World → Text → OtpPurpose → Exec (AuthDb S) Bool
  accept_code none w otp purpose = validate_log w [] otp purpose
  accept_code (some email) w otp purpose = do
    modify (drop (code_key otp purpose))
    modify (drop_contact email purpose)
    modify (mark_used [] otp purpose)
    pure true

  unfoldable pub validate_code : World → Text → OtpPurpose → Exec (AuthDb S) Bool
  validate_code w otp purpose = do
    found ← gets (cached w (code_key otp purpose))
    accept_code (contact_in found) w otp purpose

  unfoldable pub accept_contact : Text → Text → OtpPurpose → Exec (AuthDb S) Bool
  accept_contact email otp purpose = do
    modify (drop (contact_key email purpose))
    modify (drop (code_key otp purpose))
    modify (mark_used email otp purpose)
    greet purpose email
    pure true

  abbrev pub contact_or_log : Bool → World → Text → Text → OtpPurpose → Exec (AuthDb S) Bool
  contact_or_log true w email otp purpose = accept_contact email otp purpose
  contact_or_log false w email otp purpose = validate_log w email otp purpose

  unfoldable pub validate_contact : World → Text → Text → OtpPurpose → Exec (AuthDb S) Bool
  validate_contact w email otp purpose = do
    found ← gets (cached w (contact_key email purpose))
    contact_or_log (matches (otp_in found) otp) w email otp purpose

  unfoldable pub validate_otp : World → Text → Text → OtpPurpose → Exec (AuthDb S) Bool
  unfolding validate_code validate_contact
  validate_otp w email otp purpose db =
      if is_blank email
      then validate_code w otp purpose db
      else validate_contact w email otp purpose db
