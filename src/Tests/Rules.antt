-- ===== src/Tests/Rules.antt =====
-- The central bank's rules on concrete requests.
use sohcahtoa_api.Prelude.{
  refl, find, ◌==◌, ◌+◌, ◌≤◌, ◌≡◌, ◌↔◌, true, none, some, [], ◌∷◌, arith, All,
}
use sohcahtoa_api.Errors.{ok, succeeds}
use sohcahtoa_api.Exec.{result}
use sohcahtoa_api.Cbn.Rules.{
  TransactionType, TypeLimits, limits_of, TransactionMode, DisbursementMethod, Body,
}
use sohcahtoa_api.Cbn.Limits.{new_row, LimitRow, Clock, check_limits, used_in_year}
use sohcahtoa_api.Cbn.Limits.Bounds.{
  used_in_quarter, check_limits_iff, limits_never_bind, after_requests,
}
use sohcahtoa_api.Cbn.Documents.{
  middleware_documents, get_required_documents, check_provided, includes,
}
use sohcahtoa_api.Cbn.Documents.Required.{same_documents, check_provided_iff}
use sohcahtoa_api.Cbn.Middleware.{UserKyc, KycStatus, is_verified, cbn_compliance}
use sohcahtoa_api.Cbn.Middleware.Chain.{compliance_iff}

abbrev march : Clock
march = record { month = 2; year = 2025 }

abbrev pta_limits : TypeLimits
pta_limits = record { quarterly_limit = 400000; yearly_limit = 1600000 }

abbrev used : LimitRow
used = record {
  user_id = 8;
  type = TransactionType.pta;
  quarter = 1;
  year = 2025;
  quarterly_limit = 400000;
  yearly_limit = 1600000;
  current_quarter_usage = 100000;
  current_year_usage = 0;
}

check_limits_iff_example :
    (succeeds (result (check_limits march 8 TransactionType.pta 300000 pta_limits) (used ∷ []))
      ≡ true)
    ↔ ((used_in_quarter 8 TransactionType.pta march (used ∷ []) + 300000 ≤ 400000)
        × (used_in_year 8 TransactionType.pta 2025 (used ∷ []) + 300000 ≤ 1600000))
check_limits_iff_example =
    check_limits_iff march 8 TransactionType.pta pta_limits (used ∷ []) 300000

abbrev split : Body
split = record {
  user_id = some 8;
  type = some TransactionType.pta;
  foreign_amount = some 400000;
  disbursement_method = some DisbursementMethod.cash_pickup;
  cash_amount = some 100000;
  card_amount = some 300000;
  documents = some ("VISA" ∷ "RETURN_TICKET" ∷ []);
  admission_type = none;
  amount = none;
  mode = none;
}

abbrev unused_row : LimitRow
unused_row = new_row 8 TransactionType.pta march pta_limits

no_usage : unused_row.current_quarter_usage ≡ 0
no_usage = refl

limits_never_bind_example :
    succeeds (
      result
        (check_limits march 8 TransactionType.pta 400000 pta_limits)
        (after_requests ((march, split) ∷ (march, split) ∷ []) (unused_row ∷ [])))
    ≡ true
limits_never_bind_example =
    limits_never_bind ((march, split) ∷ (march, split) ∷ []) march 8 TransactionType.pta 400000
      pta_limits (unused_row ∷ []) (no_usage, tt) (omega arith) (omega arith)

same_documents_example :
    middleware_documents TransactionType.tourist_fx none (some TransactionMode.sell) (some 2000000)
    ≡ get_required_documents TransactionType.tourist_fx none
        (some TransactionMode.sell)
        (some 2000000)
same_documents_example =
    same_documents TransactionType.tourist_fx none (some TransactionMode.sell) (some 2000000)

check_provided_iff_example :
    (check_provided ("VISA" ∷ []) (some ("VISA" ∷ "RECEIPT" ∷ [])) ≡ ok tt)
    ↔ All (λ r. includes ("VISA" ∷ "RECEIPT" ∷ []) r ≡ true) ("VISA" ∷ [])
check_provided_iff_example = check_provided_iff ("VISA" ∷ []) ("VISA" ∷ "RECEIPT" ∷ [])

abbrev kyc : UserKyc
kyc = record { user_id = 8; status = KycStatus.verified; bvn_verified = true }

abbrev asked : Body
asked = record split { foreign_amount = some 40000 }

pta_limited : limits_of TransactionType.pta ≡ some pta_limits
pta_limited = refl

compliance_iff_example :
    (succeeds (result (cbn_compliance march (kyc ∷ []) none asked) (used ∷ [])) ≡ true) ↔ (
      ((k : UserKyc) × (find (λ k. k.user_id == 8) (kyc ∷ []) ≡ some k)
        × (is_verified k.status ≡ true)
        × (k.bvn_verified ≡ true))
      × (used_in_quarter 8 TransactionType.pta march (used ∷ []) + 40000 ≤ 400000)
      × (used_in_year 8 TransactionType.pta 2025 (used ∷ []) + 40000 ≤ 1600000)
      × All
          (λ r. includes ("VISA" ∷ "RETURN_TICKET" ∷ []) r ≡ true)
          (middleware_documents TransactionType.pta none none none))
compliance_iff_example =
    compliance_iff march (kyc ∷ []) none asked (used ∷ []) 8 TransactionType.pta pta_limits 40000
      ("VISA" ∷ "RETURN_TICKET" ∷ []) refl refl pta_limited refl (omega arith) refl
