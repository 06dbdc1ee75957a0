-- ===== src/Errors.antt =====
-- Errors as values (src/shared/utils/errors.ts, src/shared/types/common.ts): `AppError` with its
-- code, message and HTTP status, the errors of the database client, and any other error.
use sohcahtoa_api.Prelude.{◌≡◌, refl, ◌⊎◌, inl, inr, ℕ, String, Bool, true, false}

-- enum ErrorCode
pub data ErrorCode : Type 0 where
  unauthorized forbidden not_found validation_error internal_error : ErrorCode
  service_unavailable rate_limit_exceeded duplicate_entry bad_request : ErrorCode
  external_service_error : ErrorCode

-- The two failures of the database client that the code can meet: P2025 and P2002.
pub data PrismaCode : Type 0 where
  record_not_found unique_violation : PrismaCode

pub data Error : Type 0 where
  app : ErrorCode → String → ℕ → Error
  prisma : PrismaCode → Error
  other : String → Error

pub data Result {ℓ} (A : Type ℓ) : Type ℓ where
  ok : A → Result A
  err : Error → Result A

-- The last lines of the services' catch blocks: an `AppError` goes on, any other error becomes
-- `new AppError(ErrorCode.INTERNAL_ERROR, message, 500)`.
abbrev pub wrap : String → Error → Error
wrap message (app c m s) = app c m s
wrap message (prisma c) = app internal_error message 500
wrap message (other m) = app internal_error message 500

-- new NotFoundError(message), new ValidationError(message), new ForbiddenError(message)
abbrev pub not_found_error : String → Error
not_found_error message = app not_found message 404

abbrev pub invalid : String → Error
invalid message = app validation_error message 400

abbrev pub forbidden_error : String → Error
forbidden_error message = app forbidden message 403

abbrev pub succeeds {ℓ} : {A : Type ℓ} → Result A → Bool
succeeds (ok a) = true
succeeds (err e) = false

pub Result-cases {ℓ} :
    {A : Type ℓ} (r : Result A) → ((a : A) × (r ≡ ok a)) ⊎ ((e : Error) × (r ≡ err e))
Result-cases (ok a) = inl (a, refl)
Result-cases (err e) = inr (e, refl)
