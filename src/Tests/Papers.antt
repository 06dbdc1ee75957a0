-- ===== src/Tests/Papers.antt =====
-- Verifications of documents on an empty table.
use sohcahtoa_api.Prelude.{ℕ, true, none, some, is_some, List, [], ◌∷◌, ◌++◌, ◌≡◌, refl}
use sohcahtoa_api.Table.{find_unique, modify_unique, modify_where}
use sohcahtoa_api.Admin.Rows.{VerificationStatus}
use sohcahtoa_api.Documents.Rows.{VerificationType, VerificationRequest, DocumentDb}
use sohcahtoa_api.Documents.Checks.{check_document, verify_passport}
use sohcahtoa_api.Documents.Requests.{
  request_by, finished, pending_request, update_request, conclude, process_automated_verification,
  create_verification_request, admin_review, closed_at,
}
use sohcahtoa_api.Documents.Support.{supported}
use sohcahtoa_api.Documents.Evidence.{
  DocumentCall, requested, reviewed, perform, run, verified_has_evidence,
}

abbrev no_papers : DocumentDb
no_papers = record { requests = []; results = []; reviews = []; api_logs = []; events = [] }

abbrev passport_sent : List (ℕ × ℕ × DocumentCall)
passport_sent = (100, 5, requested 1 2 3 VerificationType.passport) ∷ []

abbrev passport_row : VerificationRequest
passport_row =
    finished 100 VerificationStatus.verified (pending_request 5 1 2 3 VerificationType.passport)

verified_at_once : request_by 5 (run passport_sent no_papers) ≡ some passport_row
unfolding run perform create_verification_request process_automated_verification conclude
    update_request check_document verify_passport find_unique modify_unique modify_where
verified_at_once = refl

-- a review overrules the automated check
overruled :
    request_by 5 (run (passport_sent ++ (200, 6, reviewed 5 9 "REJECT" none) ∷ []) no_papers)
    ≡ some (closed_at 200 VerificationStatus.failed passport_row)
unfolding run perform create_verification_request process_automated_verification admin_review
    conclude update_request check_document verify_passport find_unique modify_unique modify_where
overruled = refl

verified_has_evidence_example :
    (is_some passport_row.completed_at ≡ true)
    × (supported (run passport_sent no_papers).results (run passport_sent no_papers).reviews 5
        ≡ true)
verified_has_evidence_example =
    verified_has_evidence passport_sent no_papers 5 passport_row refl verified_at_once refl
