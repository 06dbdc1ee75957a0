-- ===== src/Auth/Signup.antt =====
-- Registration in src/modules/auth/services/auth.service.ts: signup, and the steps from a BVN or a
-- passport to an account. Dates of birth, addresses, gender and nationality are left out, and so is
-- the personal data of the answers. The BVN and passport services are given by the world.
use sohcahtoa_api.Prelude.{
  ℕ, ◌*◌, Bool, true, false, not, Option, none, some, is_some, or_option, Text, is_blank,
  if◌then◌else◌,
}
use sohcahtoa_api.Errors.{Error, invalid, prisma, record_not_found}
use sohcahtoa_api.Exec.{Exec, pure, gets, modify, raise_if, or_raise, ◌>>=◌, ◌>>◌}
use sohcahtoa_api.Validators.{validate_email, validate_phone_number, validate_bvn, is_strong}
use sohcahtoa_api.Cbn.Middleware.{KycStatus, is_verified}
use sohcahtoa_api.Auth.Rows.{
  UserRole, CustomerType, OtpPurpose, User, UserCredential, UserKyc, Identity, CacheKey, bvn_key,
  passport_key, CacheValue, identity_value, Redis, Hashing, World, AuthDb, user_registered,
}
use sohcahtoa_api.Auth.Tables.{
  duplicate_error, user_by, user_by_contact, kyc_by_bvn, kyc_by_passport, publish, create_account,
}
use sohcahtoa_api.Auth.Otp.{keep, send_otp}

-- verificationType: 'email' | 'phone'
pub data Channel : Type 0 where
  by_email by_phone : Channel

abbrev pub identity_in : Option CacheValue → Option Identity
identity_in (some (identity_value i)) = some i
identity_in _ = none

-- prisma.user.create with `create` of the credentials, as every kind of account has it
abbrev pub customer : World → Text → Text → Option CustomerType → Bool → Text → Text → User
customer w email phone type verified first last = record {
  id = w.fresh_id;
  email = email;
  phone_number = phone;
  role = UserRole.customer;
  customer_type = type;
  is_active = true;
  email_verified = verified;
  first_name = first;
  last_name = last;
}

abbrev pub credential : Hashing → World → Text → UserCredential
credential hashing w password = record {
  id = w.fresh_id;
  user_id = w.fresh_id;
  password_hash = hashing.hash w.salt password;
  failed_attempts = 0;
  locked_until = none;
}

abbrev pub new_kyc : World → UserKyc
new_kyc w = record {
  user_id = w.fresh_id;
  status = KycStatus.not_started;
  bvn = none;
  bvn_verified = false;
  passport_number = none;
  passport_document_url = none;
  passport_verified = false;
}

abbrev pub bvn_kyc : World → Identity → UserKyc
bvn_kyc w i = record (new_kyc w) {
  status = KycStatus.verified;
  bvn = some i.number;
  bvn_verified = true;
}

abbrev pub passport_kyc : World → Identity → UserKyc
passport_kyc w i = record (new_kyc w) {
  status = KycStatus.verified;
  passport_number = some i.number;
  passport_document_url = i.document_url;
  passport_verified = true;
}

-- what the profile of a user who did not finish has
abbrev pub stored_identity : Text → Option Text → User → Identity
stored_identity number url u = record {
  number = number;
  document_url = url;
  first_name = u.first_name;
  last_name = u.last_name;
  email = u.email;
  phone_number = u.phone_number;
}

module _ {S : Type 0} (redis : Redis S) where
  unfoldable pub signup : Hashing → World → Text → Text → Text → Text → Text → Exec (AuthDb S) ℕ
  signup hashing w email phone password first last = do
    raise_if (not (validate_email email)) (invalid "Invalid email format")
    raise_if (not (validate_phone_number phone)) (invalid "Invalid phone number format")
    raise_if (not (is_strong password)) (invalid "Password does not meet requirements")
    existing ← gets (user_by_contact email phone)
    raise_if (is_some existing)
        (duplicate_error "User with this email or phone number already exists")
    user ←
        create_account (customer w email phone none false first last)
          (credential hashing w password) (some (new_kyc w))
    modify (publish (user_registered user.id))
    send_otp redis w user.email user.phone_number OtpPurpose.registration
    pure user.id

  -- redis.setex(cacheKey, 30 * 60, ...)
  unfoldable pub remember : World → (ℕ → CacheKey) → Identity → Exec (AuthDb S) ℕ
  remember w key_of i = do
    modify (keep redis w (key_of w.fresh_id) (30 * 60) (identity_value i))
    pure w.fresh_id

  -- a KYC row that is there: VERIFIED blocks, any other status restores the session
  unfoldable pub resume :
      World → (ℕ → CacheKey) → Text → Option Text → UserKyc → Error → Exec (AuthDb S) ℕ
  unfolding remember
  resume w key_of number url kyc e = do
    raise_if (is_verified kyc.status) e
    owner ← gets (user_by kyc.user_id)
    user ← or_raise owner (prisma record_not_found)
    remember w key_of (stored_identity number url user)

  abbrev pub bvn_or_new : Option UserKyc → World → Text → Exec (AuthDb S) ℕ
  bvn_or_new (some kyc) w bvn =
      resume w bvn_key bvn none kyc (duplicate_error "An account with this BVN already exists")
  bvn_or_new none w bvn = do
    raise_if (not (validate_bvn bvn)) (invalid "Invalid BVN format. BVN must be 11 digits")
    i ← or_raise (w.verify_identity bvn) (invalid "BVN verification failed")
    remember w bvn_key (record i { number = bvn })

  unfoldable pub verify_bvn_for_signup : World → Text → Exec (AuthDb S) ℕ
  verify_bvn_for_signup w bvn = do existing ← gets (kyc_by_bvn bvn); bvn_or_new existing w bvn

  -- existingKyc.passportDocumentUrl ?? passportDocumentUrl
  abbrev pub resume_passport : World → Text → Text → UserKyc → Exec (AuthDb S) ℕ
  resume_passport w url number kyc =
      resume w passport_key number (or_option kyc.passport_document_url (some url)) kyc
        (duplicate_error "An account with this passport already exists")

  abbrev pub remember_passport : World → Text → Text → Identity → Exec (AuthDb S) ℕ
  remember_passport w url number i =
      remember w passport_key (record i { number = number; document_url = some url })

  -- the number came from the document: the table is asked now
  abbrev pub extracted_or_new : Option UserKyc → World → Text → Identity → Exec (AuthDb S) ℕ
  extracted_or_new (some kyc) w url i = resume_passport w url i.number kyc
  extracted_or_new none w url i = remember_passport w url i.number i

  -- passportNumber || extracted number, and the table if the number was extracted and is there
  abbrev pub by_number :
      Bool → Bool → Option UserKyc → World → Text → Text → Identity → Exec (AuthDb S) ℕ
  by_number false extracted existing w url number i = remember_passport w url number i
  by_number true false existing w url number i = extracted_or_new existing w url i
  by_number true true existing w url number i = remember_passport w url i.number i

  unfoldable pub extract_passport : World → Text → Text → Exec (AuthDb S) ℕ
  extract_passport w url number = do
    i ← or_raise (w.verify_identity url) (invalid "Passport verification failed")
    existing ← gets (kyc_by_passport i.number)
    by_number (is_blank number) (is_blank i.number) existing w url number i

  abbrev pub supplied_or_new : Option UserKyc → World → Text → Text → Exec (AuthDb S) ℕ
  supplied_or_new (some kyc) w url number = resume_passport w url number kyc
  supplied_or_new none w url number = extract_passport w url number

  unfoldable pub verify_passport_for_signup : World → Text → Text → Exec (AuthDb S) ℕ
  verify_passport_for_signup w url number = do
    existing ← gets (kyc_by_passport number)
    supplied_or_new (if is_blank number then none else existing) w url number
