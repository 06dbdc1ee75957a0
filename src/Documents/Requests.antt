-- ===== src/Documents/Requests.antt =====
-- createVerificationRequest, processAutomatedVerification and adminReview of
-- src/modules/documents/services/verification.service.ts.
use text.Mathlib.Text.{◌==◌ as str_eq}
use sohcahtoa_api.Prelude.{
  ℕ, String, Bool, true, false, Option, none, some, [], ◌∷◌, ◌++◌, if◌then◌else◌,
}
use sohcahtoa_api.Errors.{Error, ok, err, not_found_error, prisma, record_not_found}
use sohcahtoa_api.Exec.{Exec, pure, raise, gets, modify, or_raise, try_catch, ◌>>=◌, ◌>>◌}
use sohcahtoa_api.Table.{find_unique, modify_unique}
use sohcahtoa_api.Admin.Rows.{VerificationStatus}
use sohcahtoa_api.Documents.Rows.{
  VerificationType, VerificationRequest, VerificationResult, AdminReview, verification_completed,
  DocumentDb,
}
use sohcahtoa_api.Documents.Checks.{Check, judged, check_document}

-- only the check of a passport logs its call
abbrev pub logged_call : VerificationType → DocumentDb → DocumentDb
logged_call VerificationType.passport db = record db {
  api_logs = db.api_logs ++ "NIGERIAN_IMMIGRATION" ∷ [];
}
logged_call _ db = db

abbrev pub is_verified : VerificationStatus → Bool
is_verified VerificationStatus.verified = true
is_verified _ = false

abbrev pub request_by : ℕ → DocumentDb → Option VerificationRequest
request_by id db = find_unique (λ r. r.id) id db.requests

abbrev pub update_found :
    Option VerificationRequest
    → ℕ
    → (VerificationRequest → VerificationRequest)
    → Exec DocumentDb VerificationRequest
update_found none id f db = (err (prisma record_not_found), db)
update_found (some r) id f db =
    (ok (f r), record db { requests = modify_unique (λ r. r.id) id f db.requests })

unfoldable pub update_request :
    ℕ → (VerificationRequest → VerificationRequest) → Exec DocumentDb VerificationRequest
update_request id f db = update_found (request_by id db) id f db

abbrev pub started : VerificationRequest → VerificationRequest
started r = record r { status = VerificationStatus.in_progress }

abbrev pub for_review : VerificationRequest → VerificationRequest
for_review r = record r { status = VerificationStatus.requires_manual_review }

abbrev pub finished : ℕ → VerificationStatus → VerificationRequest → VerificationRequest
finished now status r = record r {
  status = status;
  completed_at = if is_verified status then some now else none;
}

abbrev pub result_of : VerificationRequest → Check → VerificationResult
result_of r c = record {
  request_id = r.id;
  verification_type = r.verification_type;
  status = c.status;
  provider = c.provider;
  confidence_score = c.confidence_score;
  flags = c.flags;
}

abbrev pub add_result : VerificationRequest → Check → DocumentDb → DocumentDb
add_result r c db = record db { results = db.results ++ result_of r c ∷ [] }

abbrev pub publish : VerificationRequest → VerificationStatus → DocumentDb → DocumentDb
publish r status db = record db {
  events = db.events ++ verification_completed r.transaction_id r.user_id status ∷ [];
}

-- the body of the try block
unfoldable pub conclude : ℕ → VerificationRequest → Check → Exec DocumentDb Check
unfolding update_request
conclude now r c = do
  modify (logged_call r.verification_type)
  modify (add_result r c)
  update_request r.id (finished now c.status)
  modify (publish r c.status)
  pure c

abbrev pub give_up : ℕ → Error → Exec DocumentDb Check
give_up id e = do update_request id for_review; raise e

unfoldable pub process_automated_verification : ℕ → ℕ → Exec DocumentDb Check
unfolding conclude
process_automated_verification now id = do
  found ← gets (request_by id)
  r ← or_raise found (not_found_error "Verification request not found")
  update_request id started
  try_catch (conclude now r (check_document r.verification_type)) (give_up id)

abbrev pub pending_request : ℕ → ℕ → ℕ → ℕ → VerificationType → VerificationRequest
pending_request id transaction user document type = record {
  id = id;
  transaction_id = transaction;
  user_id = user;
  document_id = document;
  verification_type = type;
  status = VerificationStatus.pending;
  completed_at = none;
}

abbrev pub add_request : VerificationRequest → DocumentDb → DocumentDb
add_request r db = record db { requests = db.requests ++ r ∷ [] }

-- the id is the new row's
unfoldable pub create_verification_request :
    ℕ → ℕ → ℕ → ℕ → ℕ → VerificationType → Exec DocumentDb VerificationRequest
create_verification_request now id transaction user document type = do
  modify (add_request (pending_request id transaction user document type))
  process_automated_verification now id
  pure (pending_request id transaction user document type)

-- decision === 'APPROVE' ? VERIFIED : FAILED
abbrev pub decided : String → VerificationStatus
decided decision = judged (str_eq decision "APPROVE") VerificationStatus.failed

abbrev pub closed_at : ℕ → VerificationStatus → VerificationRequest → VerificationRequest
closed_at now status r = record r { status = status; completed_at = some now }

abbrev pub add_review : AdminReview → DocumentDb → DocumentDb
add_review v db = record db { reviews = db.reviews ++ v ∷ [] }

abbrev pub review_of : ℕ → ℕ → String → Option String → AdminReview
review_of id reviewer decision comments = record {
  request_id = id;
  reviewer_id = reviewer;
  status = decided decision;
  decision = decision;
  comments = comments;
}

unfoldable pub admin_review : ℕ → ℕ → ℕ → String → Option String → Exec DocumentDb AdminReview
unfolding update_request
admin_review now id reviewer decision comments = do
  found ← gets (request_by id)
  r ← or_raise found (not_found_error "Verification request not found")
  modify (add_review (review_of id reviewer decision comments))
  update_request id (closed_at now (decided decision))
  modify (publish r (decided decision))
  pure (review_of id reviewer decision comments)
