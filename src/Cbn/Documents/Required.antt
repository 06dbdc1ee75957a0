-- ===== src/Cbn/Documents/Required.antt =====
-- The middleware and the customer service ask for the same documents, and the check finds them all.
use sohcahtoa_api.Prelude.{
  ℕ, ◌≡◌, ◌↔◌, refl, true, Option, some, List, [], ◌∷◌, arith, All, Bool-cases, inl, inr, String,
}
use sohcahtoa_api.Errors.{Result, ok, err, invalid}
use sohcahtoa_api.Cbn.Rules.{TransactionType, AdmissionType, TransactionMode}
use sohcahtoa_api.Cbn.Documents.{
  middleware_documents, get_required_documents, check_provided, includes, missing_of, by_mode,
  service_table, middleware_table,
}

same_tables :
    (type : TransactionType) (mode : Option TransactionMode)
    → by_mode type mode (service_table type) ≡ middleware_table type
same_tables type mode = ground arith

-- The documents that the middleware requires are those that the customer service requires, for
-- every type, admission type, mode and amount.
pub same_documents :
    (type : TransactionType) (admission : Option AdmissionType) (mode : Option TransactionMode)
    (amount : Option ℕ)
    → middleware_documents type admission mode amount
      ≡ get_required_documents type admission mode amount
unfolding middleware_documents get_required_documents
same_documents type admission mode amount = rw (same_tables type mode)

missing_of-All :
    (required provided : List String)
    → missing_of required provided ≡ []
    → All (λ r. includes provided r ≡ true) required
missing_of-All [] provided e = tt
missing_of-All (r ∷ rs) provided e = elim (Bool-cases (includes provided r)) [
  | inl here ↦ (here, missing_of-All rs provided (ground arith))
  | inr lost ↦ absurd (ground arith)
]

missing_of-none :
    (required provided : List String)
    → All (λ r. includes provided r ≡ true) required
    → missing_of required provided ≡ []
missing_of-none [] provided h = refl
missing_of-none (r ∷ rs) provided h = rw (h.0) (missing_of-none rs provided h.1)

abbrev verdict : List String → Result (Unit {0})
verdict [] = ok tt
verdict (x ∷ xs) = err (invalid "Missing required documents")

none_if_ok : (m : List String) → verdict m ≡ ok tt → m ≡ []
none_if_ok [] e = refl
none_if_ok (x ∷ xs) e = absurd (ground arith)

verdict_lem :
    (required provided : List String)
    → check_provided required (some provided) ≡ verdict (missing_of required provided)
unfolding check_provided
verdict_lem [] provided = refl
verdict_lem (r ∷ rs) provided = ground arith

-- The check of a request that names documents succeeds exactly if all the required documents are
-- among them.
pub check_provided_iff :
    (required provided : List String)
    → (check_provided required (some provided) ≡ ok tt)
      ↔ All (λ r. includes provided r ≡ true) required
check_provided_iff required provided = rw (verdict_lem required provided) (
  λ e. missing_of-All required provided (none_if_ok (missing_of required provided) e),
  λ h. rw (missing_of-none required provided h),
)
