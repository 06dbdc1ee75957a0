-- ===== src/Auth/Rows.antt =====
-- The rows of the authentication service (prisma/schema.prisma), what it keeps in Redis, and the
-- platform below it: Redis and the hashing of passwords as records of operations and laws.
use sohcahtoa_api.Prelude.{
  ℕ, ◌+◌, ◌*◌, ◌==◌, ◌≤◌, ◌⊎◌, ltb, Bool, true, false, ◌&&◌, Option, none, some, List, ◌≡◌, Text,
  text_eq, if◌then◌else◌,
}
use sohcahtoa_api.Cbn.Middleware.{KycStatus}

pub data UserRole : Type 0 where
  customer agent admin compliance_officer operations super_admin : UserRole

pub data CustomerType : Type 0 where
  nigerian_citizen tourist expatriate : CustomerType

pub data OtpPurpose : Type 0 where
  registration login password_reset agent_set_password transaction_verification : OtpPurpose

abbrev purpose_code : OtpPurpose → ℕ
purpose_code OtpPurpose.registration = 0
purpose_code OtpPurpose.login = 1
purpose_code OtpPurpose.password_reset = 2
purpose_code OtpPurpose.agent_set_password = 3
purpose_code OtpPurpose.transaction_verification = 4

abbrev pub purpose_eq : OtpPurpose → OtpPurpose → Bool
purpose_eq p q = purpose_code p == purpose_code q

-- a user with the profile's names
pub record User : Type 0 where
  pub id : ℕ
  pub email : Text
  pub phone_number : Text
  pub role : UserRole
  pub customer_type : Option CustomerType
  pub is_active : Bool
  pub email_verified : Bool
  pub first_name : Text
  pub last_name : Text

pub record UserCredential : Type 0 where
  pub id : ℕ
  pub user_id : ℕ
  pub password_hash : Text
  pub failed_attempts : ℕ
  pub locked_until : Option ℕ

pub record UserKyc : Type 0 where
  pub user_id : ℕ
  pub status : KycStatus
  pub bvn : Option Text
  pub bvn_verified : Bool
  pub passport_number : Option Text
  pub passport_document_url : Option Text
  pub passport_verified : Bool

pub record Session : Type 0 where
  pub id : ℕ
  pub user_id : ℕ
  pub refresh_token : ℕ
  pub is_active : Bool
  pub expires_at : ℕ

pub record OtpLog : Type 0 where
  pub id : ℕ
  pub email : Text
  pub phone_number : Text
  pub otp : Text
  pub purpose : OtpPurpose
  pub is_used : Bool
  pub attempts : ℕ
  pub expires_at : ℕ

pub record Agent : Type 0 where
  pub id : ℕ
  pub name : Text
  pub email : Text
  pub phone_number : Text
  pub password : Option Text
  pub is_active : Bool

-- what a verification of a BVN or of a passport leaves in Redis
pub record Identity : Type 0 where
  pub number : Text  -- of the BVN or of the passport
  pub document_url : Option Text
  pub first_name : Text
  pub last_name : Text
  pub email : Text
  pub phone_number : Text

-- `otp:${contact}:${purpose}`, `otp:code:${otp}:${purpose}`, `password:reset:${token}`,
-- `bvn:verification:${token}` and `passport:verification:${token}`
pub data CacheKey : Type 0 where
  contact_key : Text → OtpPurpose → CacheKey
  code_key : Text → OtpPurpose → CacheKey
  reset_key : ℕ → CacheKey
  bvn_key : ℕ → CacheKey
  passport_key : ℕ → CacheKey

pub data CacheValue : Type 0 where
  otp_value : Text → CacheValue
  contact_value : Text → CacheValue  -- the email of the JSON under the code's key
  user_value : ℕ → CacheValue
  identity_value : Identity → CacheValue

unfoldable pub key_eq : CacheKey → CacheKey → Bool
key_eq (contact_key c p) (contact_key d q) = text_eq c d && purpose_eq p q
key_eq (code_key c p) (code_key d q) = text_eq c d && purpose_eq p q
key_eq (reset_key t) (reset_key u) = t == u
key_eq (bvn_key t) (bvn_key u) = t == u
key_eq (passport_key t) (passport_key u) = t == u
key_eq _ _ = false

-- Times are in milliseconds; setex takes seconds. As time goes on, a key keeps its value or loses it.
pub record Redis (S : Type 0) : Type 0 where
  pub get : ℕ → CacheKey → S → Option CacheValue
  pub setex : ℕ → CacheKey → ℕ → CacheValue → S → S
  pub del : CacheKey → S → S
  pub get-setex :
      (now later : ℕ) (k j : CacheKey) (seconds : ℕ) (v : CacheValue) (s : S)
      → get later j (setex now k seconds v s) ≡ (
          if key_eq k j
          then (if ltb later (now + seconds * 1000) then some v else none)
          else get later j s)
  pub get_fades :
      (now later : ℕ) (k : CacheKey) (s : S)
      → now ≤ later
      → (get later k s ≡ none) ⊎ (get later k s ≡ get now k s)
  pub get-del :
      (now : ℕ) (k j : CacheKey) (s : S)
      → get now j (del k s) ≡ (if key_eq k j then none else get now j s)

-- bcrypt; the salt is the random input
pub record Hashing : Type 0 where
  pub hash : ℕ → Text → Text
  pub compare : Text → Text → Bool
  pub compare-hash : (salt : ℕ) (password : Text) → compare password (hash salt password) ≡ true

-- what one call finds outside the database: the clock, the generators, the verification services
pub record World : Type 0 where
  pub now : ℕ
  pub fresh_id : ℕ
  pub session_id : ℕ
  pub refresh_token : ℕ
  pub otp : Text
  pub salt : ℕ
  pub verify_identity : Text → Option Identity

pub data AuthEvent : Type 0 where
  user_registered bvn_verified kyc_submitted password_reset_requested : ℕ → AuthEvent
  password_reset_completed : ℕ → AuthEvent

pub record AuthDb (S : Type 0) : Type 0 where
  pub users : List User
  pub credentials : List UserCredential
  pub kycs : List UserKyc
  pub sessions : List Session
  pub otp_logs : List OtpLog
  pub agents : List Agent
  pub events : List AuthEvent
  pub cache : S
