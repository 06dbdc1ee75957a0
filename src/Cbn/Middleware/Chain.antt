-- ===== src/Cbn/Middleware/Chain.antt =====
-- What a request that passes the combined middleware satisfies.
use sohcahtoa_api.Prelude.{
  ℕ, String, ◌+◌, ◌≤◌, ◌==◌, ◌≡◌, ◌↔◌, ◌∙◌, ap, refl, true, Option, none, some, List, All, find,
  arith,
}
use sohcahtoa_api.Errors.{ok, succeeds}
use sohcahtoa_api.Exec.{result}
use sohcahtoa_api.Cbn.Rules.{DisbursementMethod, Body, TransactionType, TypeLimits, limits_of}
use sohcahtoa_api.Cbn.Limits.{LimitRow, Clock, check_known, check_transaction_limits, used_in_year}
use sohcahtoa_api.Cbn.Limits.Bounds.{used_in_quarter, check_limits_iff}
use sohcahtoa_api.Cbn.Disbursement.{validate_disbursement_method, validate_known}
use sohcahtoa_api.Cbn.Documents.{check_supporting_documents, middleware_documents, includes}
use sohcahtoa_api.Cbn.Documents.Required.{check_provided_iff}
use sohcahtoa_api.Cbn.Middleware.{
  UserKyc, check_kyc_status, check_kyc_row, cbn_compliance, is_verified,
}

-- the four checks, by themselves
chain :
    (c : Clock) (kycs : List UserKyc) (session : Option ℕ) (b : Body) (rows : List LimitRow)
    → (succeeds (result (cbn_compliance c kycs session b) rows) ≡ true) ↔ (
        (check_kyc_status kycs session b ≡ ok tt)
        × (succeeds (check_transaction_limits c b rows).0 ≡ true)
        × (validate_disbursement_method b ≡ ok tt)
        × (check_supporting_documents b ≡ ok tt))
unfolding cbn_compliance
chain c kycs session b rows = ground arith

-- The check of a user's KYC row succeeds exactly if the row is there, is VERIFIED and has its BVN
-- verified.
pub kyc_iff :
    (row : Option UserKyc)
    → (check_kyc_row row ≡ ok tt)
      ↔ ((k : UserKyc) × (row ≡ some k) × (is_verified k.status ≡ true) × (k.bvn_verified ≡ true))
unfolding check_kyc_row
kyc_iff none = ground arith
kyc_iff (some k) = (λ h. (k, refl, ground arith, ground arith), λ h. ground arith)

module _ (c : Clock) (kycs : List UserKyc) (session : Option ℕ) (b : Body) (rows : List LimitRow)
    (user : ℕ) (type : TransactionType) (l : TypeLimits) (amount : ℕ) (provided : List String)
    (by_user : b.user_id ≡ some user) (of_type : b.type ≡ some type)
    (limited : limits_of type ≡ some l) (asks : b.foreign_amount ≡ some amount)
    (small : amount ≤ 50000) (names : b.documents ≡ some provided) where
  kyc_part : (check_kyc_status kycs session b ≡ ok tt) ↔ (
      (k : UserKyc) × (find (λ k. k.user_id == user) kycs ≡ some k)
      × (is_verified k.status ≡ true)
      × (k.bvn_verified ≡ true))
  unfolding check_kyc_status
  kyc_part = rw by_user (kyc_iff (find (λ k. k.user_id == user) kycs))

  limits_part : (succeeds (check_transaction_limits c b rows).0 ≡ true) ↔ (
      (used_in_quarter user type c rows + amount ≤ l.quarterly_limit)
      × (used_in_year user type c.year rows + amount ≤ l.yearly_limit))
  unfolding check_transaction_limits
  limits_part =
      rw (by_user, of_type, asks, check_known)
        (rw limited (check_limits_iff c user type l rows amount))

  disbursement_part : validate_disbursement_method b ≡ ok tt
  unfolding validate_disbursement_method validate_known
  disbursement_part =
      ap (λ a. validate_known a b.disbursement_method b) asks ∙ by_method b.disbursement_method b
    where
      by_method :
          (m : Option DisbursementMethod) (x : Body) → validate_known (some amount) m x ≡ ok tt
      by_method none x = refl
      by_method (some m) x = ground arith

  documents_part :
      (check_supporting_documents b ≡ ok tt)
      ↔ All
          (λ r. includes provided r ≡ true)
          (middleware_documents type b.admission_type b.mode b.amount)
  unfolding check_supporting_documents
  documents_part =
      rw (of_type, names)
        (check_provided_iff (middleware_documents type b.admission_type b.mode b.amount) provided)

  -- A request of up to 500 USD that names its user, a type with limits and its documents passes the
  -- combined middleware exactly if the user's KYC row is there, VERIFIED and with a verified BVN,
  -- the amount fits into what is left of the quarter's limit and of the year's, and all documents
  -- that the type requires are among those named.
  pub compliance_iff : (succeeds (result (cbn_compliance c kycs session b) rows) ≡ true) ↔ (
      ((k : UserKyc) × (find (λ k. k.user_id == user) kycs ≡ some k)
        × (is_verified k.status ≡ true)
        × (k.bvn_verified ≡ true))
      × (used_in_quarter user type c rows + amount ≤ l.quarterly_limit)
      × (used_in_year user type c.year rows + amount ≤ l.yearly_limit)
      × All
          (λ r. includes provided r ≡ true)
          (middleware_documents type b.admission_type b.mode b.amount))
  compliance_iff =
      let (split, join) = chain c kycs session b rows in
      (
        λ passed.
            let (k, n, m, d) = split passed in
            (kyc_part.0 k, (limits_part.0 n).0, (limits_part.0 n).1, documents_part.0 d),
        λ all.
            let (k, q, y, d) = all in
            join (kyc_part.1 k, limits_part.1 (q, y), disbursement_part, documents_part.1 d),
      )
