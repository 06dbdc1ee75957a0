-- ===== src/Documents/Evidence.antt =====
-- Every request that is verified has a result or a review that verified it, and its date.
use sohcahtoa_api.Prelude.{
  ℕ, Bool, true, false, not, ◌&&◌, ◌||◌, Option, some, is_some, All-append, List, [], ◌∷◌, String,
  ◌≡◌, refl, ◌∙◌, arith, ==_eq,
}
use sohcahtoa_api.Errors.{Error}
use sohcahtoa_api.Exec.{after, pure, modify, ◌>>◌}
use sohcahtoa_api.Exec.Keeps.{Keeps, keeps_rules}
use sohcahtoa_api.Table.Laws.{All-find_unique}
use sohcahtoa_api.Admin.Rows.{VerificationStatus}
use sohcahtoa_api.Documents.Support.{
  supported, is_sound, Sound, Ready, add_result-Ready, add_review-Ready, joined, dated, or_true,
  update_found-Sound, update_found-lists,
}
use sohcahtoa_api.Documents.Rows.{VerificationType, VerificationRequest, DocumentDb}
use sohcahtoa_api.Documents.Checks.{Check}
use sohcahtoa_api.Documents.Requests.{
  is_verified, update_request, started, for_review, finished, add_result, publish, conclude,
  give_up, process_automated_verification, pending_request, add_request,
  create_verification_request, decided, closed_at, add_review, review_of, admin_review, logged_call,
  request_by,
}

started-Keeps : (id : ℕ) → Keeps Sound (update_request id started)
unfolding update_request
started-Keeps id = record {
  at = λ db h. update_found-Sound (request_by id db) id started db (λ r same. refl) h;
}

for_review-Keeps : (id : ℕ) → Keeps Sound (update_request id for_review)
unfolding update_request
for_review-Keeps id = record {
  at = λ db h. update_found-Sound (request_by id db) id for_review db (λ r same. refl) h;
}

-- a row that gets the status, and a date if it is verified
closing-Keeps :
    (id : ℕ) (status : VerificationStatus) (f : VerificationRequest → VerificationRequest)
    → ((r : VerificationRequest)
        → ((f r).id ≡ r.id)
          × (is_verified (f r).status ≡ is_verified status)
          × ((not (is_verified status) || is_some (f r).completed_at) ≡ true))
    → Keeps (Ready id status) (update_request id f)
unfolding update_request
closing-Keeps id status f k = record {
  at = λ db h.
      let found = request_by id db in
      let (same_results, same_reviews) = update_found-lists found id f db in
      record {
        sound =
            update_found-Sound found id f db
              (λ r same.
                let (kept, verdict, dated) = k r in
                let its : (f r).id ≡ id = kept ∙ ==_eq r.id id same in
                rw (its, verdict)
                  (joined (is_verified status) (is_some (f r).completed_at)
                    (supported db.results db.reviews id) dated h.evidence))
              h.sound;
        evidence = rw (same_results, same_reviews) h.evidence;
      };
}

publish-Keeps :
    (id : ℕ) (status : VerificationStatus) (r : VerificationRequest) (s : VerificationStatus)
    → Keeps (Ready id status) (modify (publish r s))
publish-Keeps id status r s = record {
  at = λ db h. record { sound = record { at = h.sound.at }; evidence = h.evidence };
}

finished-Keeps :
    (now id : ℕ) (status : VerificationStatus)
    → Keeps (Ready id status) (update_request id (finished now status))
finished-Keeps now id status =
    closing-Keeps id status (finished now status)
      (λ r. (refl, refl, dated now (is_verified status)))

closed_at-Keeps :
    (now id : ℕ) (status : VerificationStatus)
    → Keeps (Ready id status) (update_request id (closed_at now status))
closed_at-Keeps now id status =
    closing-Keeps id status (closed_at now status)
      (λ r. (refl, refl, or_true (not (is_verified status))))

logged_call-Sound :
    (type : VerificationType) (db : DocumentDb) → Sound db → Sound (logged_call type db)
logged_call-Sound VerificationType.passport db h = record { at = h.at }
logged_call-Sound _ db h = h

-- the end of the try block, and of a review
written-Keeps :
    {A : Type 0} (id : ℕ) (s : VerificationStatus) (f : VerificationRequest → VerificationRequest)
    (r : VerificationRequest) (a : A)
    → Keeps (Ready id s) (update_request id f)
    → Keeps (Ready id s) (update_request id f >> (modify (publish r s) >> pure a))
written-Keeps id s f r a k = search (keeps_rules, publish-Keeps)

conclude-Keeps : (now : ℕ) (r : VerificationRequest) (c : Check) → Keeps Sound (conclude now r c)
unfolding conclude
conclude-Keeps now r c = record {
  at = λ db h.
      let logged = logged_call r.verification_type db in
      let rest =
        written-Keeps r.id c.status (finished now c.status) r c
          (finished-Keeps now r.id c.status) in
      (rest.at (add_result r c logged)
        (add_result-Ready r c logged (logged_call-Sound r.verification_type db h))).sound;
}

give_up-Keeps : (id : ℕ) (e : Error) → Keeps Sound (give_up id e)
give_up-Keeps id e = search (keeps_rules, for_review-Keeps)

process-Keeps : (now id : ℕ) → Keeps Sound (process_automated_verification now id)
unfolding process_automated_verification
process-Keeps now id = search (keeps_rules, started-Keeps, conclude-Keeps, give_up-Keeps) depth 20

add_request-Keeps :
    (id transaction user document : ℕ) (type : VerificationType)
    → Keeps Sound (modify (add_request (pending_request id transaction user document type)))
add_request-Keeps id transaction user document type = record {
  at = λ db h. record {
    at =
        All-append (λ r. is_sound db.results db.reviews r ≡ true) db.requests
          (pending_request id transaction user document type ∷ []) h.at (refl, tt);
  };
}

create_verification_request-Keeps :
    (now id transaction user document : ℕ) (type : VerificationType)
    → Keeps Sound (create_verification_request now id transaction user document type)
unfolding create_verification_request
create_verification_request-Keeps now id transaction user document type =
    search (keeps_rules, add_request-Keeps, process-Keeps) depth 20

reviewed-Keeps :
    (now id reviewer : ℕ) (decision : String) (comments : Option String) (r : VerificationRequest)
    → Keeps Sound (
        modify (add_review (review_of id reviewer decision comments))
        >> (update_request id (closed_at now (decided decision))
            >> (modify (publish r (decided decision))
                >> pure (review_of id reviewer decision comments))))
reviewed-Keeps now id reviewer decision comments r = record {
  at = λ db h.
      let v = review_of id reviewer decision comments in
      let s = decided decision in
      let rest = written-Keeps id s (closed_at now s) r v (closed_at-Keeps now id s) in
      (rest.at (add_review v db) (add_review-Ready id reviewer decision comments db h)).sound;
}

admin_review-Keeps :
    (now id reviewer : ℕ) (decision : String) (comments : Option String)
    → Keeps Sound (admin_review now id reviewer decision comments)
unfolding admin_review
admin_review-Keeps now id reviewer decision comments = search (keeps_rules, reviewed-Keeps) depth 20

-- a call, with its clock and the id of the row that it makes
pub data DocumentCall : Type 0 where
  requested : ℕ → ℕ → ℕ → VerificationType → DocumentCall
  processed : ℕ → DocumentCall
  reviewed : ℕ → ℕ → String → Option String → DocumentCall

unfoldable pub perform : ℕ → ℕ → DocumentCall → DocumentDb → DocumentDb
perform now fresh (requested transaction user document type) db =
    after (create_verification_request now fresh transaction user document type) db
perform now fresh (processed id) db = after (process_automated_verification now id) db
perform now fresh (reviewed id reviewer decision comments) db =
    after (admin_review now id reviewer decision comments) db

unfoldable pub run : List (ℕ × ℕ × DocumentCall) → DocumentDb → DocumentDb
run [] db = db
run ((now, fresh, c) ∷ calls) db = run calls (perform now fresh c db)

perform-Sound :
    (now fresh : ℕ) (c : DocumentCall) (db : DocumentDb) → Sound db → Sound (perform now fresh c db)
unfolding perform
perform-Sound now fresh (requested transaction user document type) db h =
    (create_verification_request-Keeps now fresh transaction user document type).at db h
perform-Sound now fresh (processed id) db h = (process-Keeps now id).at db h
perform-Sound now fresh (reviewed id reviewer decision comments) db h =
    (admin_review-Keeps now id reviewer decision comments).at db h

run-Sound :
    (calls : List (ℕ × ℕ × DocumentCall)) (db : DocumentDb) → Sound db → Sound (run calls db)
unfolding run
run-Sound [] db h = h
run-Sound ((now, fresh, c) ∷ calls) db h =
    run-Sound calls (perform now fresh c db) (perform-Sound now fresh c db h)

both_hold : (v d s : Bool) → v ≡ true → (not v || (d && s)) ≡ true → (d ≡ true) × (s ≡ true)
both_hold true d s h e = ground arith
both_hold false d s h e = absurd (ground arith)

from_empty : (db : DocumentDb) → db.requests ≡ [] → Sound db
from_empty db none_yet = record { at = rw none_yet tt }

-- After any calls of the verification service from a table without requests, whether they succeed or
-- fail, a request that is VERIFIED has the date of its completion, and a result or a review of
-- that request is there which is VERIFIED.
pub verified_has_evidence :
    (calls : List (ℕ × ℕ × DocumentCall)) (db : DocumentDb) (id : ℕ) (r : VerificationRequest)
    → db.requests ≡ []
    → request_by id (run calls db) ≡ some r
    → is_verified r.status ≡ true
    → (is_some r.completed_at ≡ true)
      × (supported (run calls db).results (run calls db).reviews r.id ≡ true)
verified_has_evidence calls db id r none_yet found verified =
    let left = run calls db in
    let all_sound = (run-Sound calls db (from_empty db none_yet)).at in
    let one =
      All-find_unique (λ r. is_sound left.results left.reviews r ≡ true) (λ r. r.id) id
        left.requests r all_sound found in
    both_hold (is_verified r.status) (is_some r.completed_at)
      (supported left.results left.reviews r.id) verified one
