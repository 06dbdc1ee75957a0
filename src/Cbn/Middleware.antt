-- ===== src/Cbn/Middleware.antt =====
-- checkKycStatus and cbnComplianceMiddleware of src/shared/middleware/cbn-compliance.ts: the four
-- checks one after the other, of which the first that fails answers the request.
pub mod Chain
use Prim.Native.String.{◌++◌ as ◌+++◌}
use sohcahtoa_api.Prelude.{
  ℕ, String, Bool, true, false, not, Option, none, some, List, ◌==◌, find, if◌then◌else◌,
}
use sohcahtoa_api.Errors.{Error, Result, ok, err, forbidden_error}
use sohcahtoa_api.Exec.{Exec, pure, gets, ◌>>=◌, ◌>>◌}
use sohcahtoa_api.Cbn.Rules.{Body}
use sohcahtoa_api.Cbn.Limits.{LimitRow, Clock, LimitInfo, check_transaction_limits}
use sohcahtoa_api.Cbn.Disbursement.{validate_disbursement_method}
use sohcahtoa_api.Cbn.Documents.{check_supporting_documents}

pub data KycStatus : Type 0 where
  not_started in_progress pending_verification verified rejected : KycStatus

abbrev pub kyc_name : KycStatus → String
kyc_name KycStatus.not_started = "NOT_STARTED"
kyc_name KycStatus.in_progress = "IN_PROGRESS"
kyc_name KycStatus.pending_verification = "PENDING_VERIFICATION"
kyc_name KycStatus.verified = "VERIFIED"
kyc_name KycStatus.rejected = "REJECTED"

abbrev pub is_verified : KycStatus → Bool
is_verified KycStatus.verified = true
is_verified _ = false

pub record UserKyc : Type 0 where
  pub user_id : ℕ
  pub status : KycStatus
  pub bvn_verified : Bool

-- the checks on the row of a user
unfoldable pub check_kyc_row : Option UserKyc → Result (Unit {0})
check_kyc_row none =
    err (forbidden_error "KYC information not found. Please complete KYC verification.")
check_kyc_row (some k) =
    if not (is_verified k.status)
    then err (
        forbidden_error (
          "KYC verification required. Current status: "
          +++ (kyc_name k.status
              +++ (". "
                  +++ "Please complete your KYC verification before initiating transactions."))))
    else if not k.bvn_verified
    then err (forbidden_error "BVN verification required to proceed with transactions.")
    else ok tt

-- req.body.userId || req.user?.id
abbrev pub requester : Option ℕ → Option ℕ → Option ℕ
requester (some u) session = some u
requester none session = session

unfoldable pub check_kyc_status : List UserKyc → Option ℕ → Body → Result (Unit {0})
unfolding check_kyc_row
check_kyc_status kycs session b = elim (requester b.user_id session) [
  | none ↦ ok tt
  | some u ↦ check_kyc_row (find (λ k. k.user_id == u) kycs)
]

abbrev check : {A : Type 0} → Result A → Exec (List LimitRow) A
check r rows = (r, rows)

unfoldable pub cbn_compliance :
    Clock → List UserKyc → Option ℕ → Body → Exec (List LimitRow) (Option LimitInfo)
cbn_compliance c kycs session b = do
  check (check_kyc_status kycs session b)
  info ← check_transaction_limits c b
  check (validate_disbursement_method b)
  check (check_supporting_documents b)
  pure info
