-- ===== src/Aml/Scoring.antt =====
-- What a check concludes.
use sohcahtoa_api.Table.{find_unique}
use sohcahtoa_api.Table.Laws.{map_if, find_unique-modify_unique, find_unique-append_none}
use sohcahtoa_api.Prelude.{
  Option, none, some, is_some, find, any, ◌==◌, ==_refl, ◌&&◌, ℕ, ◌≤◌, ◌≡◌, refl, ap, ◌∙◌, true,
  false, Bool, List, [], ◌∷◌, ◌++◌, arith, if◌then◌else◌,
}
use sohcahtoa_api.Errors.{ok}
use sohcahtoa_api.Aml.{
  AmlDb, AmlCheckRequest, AmlCheckStatus, Clock, AmlFlag, AmlCheckResponse, assess, collect,
  check_threshold, check_frequency, check_watchlist, check_country_risk, check_nfiu, final_status,
  on_watchlist, store_flags, request_review, perform_aml_check, begin_check, open_review,
  store_flag, update_check, conclude, AmlCheck, new_check, ReviewStatus,
}

-- The score is at most 125, and at least 80 exactly if the user is on the watch list; otherwise
-- it is at most 45.
pub score_bounds :
    (c : Clock) (r : AmlCheckRequest) (db : AmlDb)
    → ((assess c r db).1 ≤ 125)
      × (if on_watchlist r.user_id db.watch_list
          then 80 ≤ (assess c r db).1
          else (assess c r db).1 ≤ 45)
unfolding assess collect check_threshold check_frequency check_watchlist check_country_risk
    check_nfiu
score_bounds c r db = ground arith

abbrev pub verdict_on : AmlCheckRequest → AmlDb → AmlCheckStatus
verdict_on r db =
    if on_watchlist r.user_id db.watch_list then AmlCheckStatus.failed else AmlCheckStatus.passed

some-find : {A : Type 0} (p : A → Bool) (xs : List A) → is_some (find p xs) ≡ any p xs
some-find p [] = refl
some-find p (x ∷ xs) = ground (arith, some-find p xs)

status_of_score :
    (c : Clock) (r : AmlCheckRequest) (db : AmlDb)
    → final_status (assess c r db).1 ≡ verdict_on r db
unfolding final_status
status_of_score c r db = let bounds = score_bounds c r db in ground arith

reviews-store_flags :
    (r : AmlCheckRequest) (id : ℕ) (flags : List AmlFlag) (db : AmlDb)
    → (store_flags r id flags db).reviews ≡ db.reviews
unfolding store_flags
reviews-store_flags r id [] db = refl
reviews-store_flags r id (f ∷ fs) db = reviews-store_flags r id fs (store_flag r id f db)

reviews-request_review :
    (id : ℕ) (r : AmlCheckRequest) (status : AmlCheckStatus) (db : AmlDb) (listed : Bool)
    → status ≡ (if listed then AmlCheckStatus.failed else AmlCheckStatus.passed)
    → (request_review id r status db).reviews
      ≡ (if listed then db.reviews ++ open_review id r ∷ [] else db.reviews)
unfolding request_review
reviews-request_review id r status db true e = rw e
reviews-request_review id r status db false e = rw e

checks-store_flags :
    (r : AmlCheckRequest) (id : ℕ) (flags : List AmlFlag) (db : AmlDb)
    → (store_flags r id flags db).checks ≡ db.checks
unfolding store_flags
checks-store_flags r id [] db = refl
checks-store_flags r id (f ∷ fs) db = checks-store_flags r id fs (store_flag r id f db)

checks-request_review :
    (id : ℕ) (r : AmlCheckRequest) (status : AmlCheckStatus) (db : AmlDb)
    → (request_review id r status db).checks ≡ db.checks
unfolding request_review
checks-request_review id r status db = ground arith

abbrev pub check_by : ℕ → AmlDb → Option AmlCheck
check_by id db = find_unique (λ k. k.id) id db.checks

-- the row of a new check, once it has begun
begun_check :
    (c : Clock) (id : ℕ) (r : AmlCheckRequest) (db : AmlDb)
    → check_by id db ≡ none
    → check_by id (begin_check c id r db)
      ≡ some (record (new_check c id r) { status = AmlCheckStatus.in_progress })
unfolding find_unique
begun_check c id r db new =
    let begin_row : AmlCheck → AmlCheck = λ k. record k { status = AmlCheckStatus.in_progress } in
    find_unique-modify_unique (λ k. k.id) begin_row (λ k. refl) id id
      (db.checks ++ new_check c id r ∷ [])
    ∙ ap (map_if (id == id) begin_row)
        (find_unique-append_none (λ k. k.id) id db.checks (new_check c id r ∷ []) new)
    ∙ rw (==_refl id)

concluded_check :
    (c : Clock) (id : ℕ) (r : AmlCheckRequest) (db : AmlDb)
    → check_by id db ≡ none
    → let (flags, score) = assess c r (begin_check c id r db) in
      check_by id (perform_aml_check c id r db).1
      ≡ some (conclude c score (record (new_check c id r) { status = AmlCheckStatus.in_progress }))
unfolding perform_aml_check
concluded_check c id r db new =
    let begun = begin_check c id r db in
    let (flags, score) = assess c r begun in
    let stored = store_flags r id flags begun in
    ap (find_unique (λ k. k.id) id)
      (checks-request_review id r (final_status score) (update_check id (conclude c score) stored))
    ∙ find_unique-modify_unique (λ k. k.id) (conclude c score) (λ k. refl) id id stored.checks
    ∙ ap (λ l. map_if (id == id) (conclude c score) (find_unique (λ k. k.id) id l))
        (checks-store_flags r id flags begun)
    ∙ ap (map_if (id == id) (conclude c score)) (begun_check c id r db new)
    ∙ rw (==_refl id)

-- A check under a new id of a user on the watch list ends FAILED and one of any other user PASSED:
-- so says the check's row, with the time of the check, and the response, and none ends FLAGGED. A
-- review is added, PENDING and without a reviewer, exactly in the first case.
pub perform_lem :
    (c : Clock) (id : ℕ) (r : AmlCheckRequest) (db : AmlDb)
    → check_by id db ≡ none
    → let left = (perform_aml_check c id r db).1 in
      let listed = any (λ e. e.name == r.user_id && e.is_active) db.watch_list in
      let verdict = if listed then AmlCheckStatus.failed else AmlCheckStatus.passed in
      ((k : AmlCheck) × (check_by id left ≡ some k)
        × (k.status ≡ verdict)
        × (k.checked_at ≡ some c.now))
      × ((response : AmlCheckResponse) × ((perform_aml_check c id r db).0 ≡ ok response)
          × (response.status ≡ verdict))
      × (left.reviews ≡ (
          if listed
          then db.reviews
            ++ record {
              check_id = id;
              transaction_id = r.transaction_id;
              reviewer_id = none;
              status = ReviewStatus.pending;
              decision = none;
              notes = none;
              reviewed_at = none;
            }
              ∷ []
          else db.reviews))
unfolding perform_aml_check
perform_lem c id r db new =
    let begun = begin_check c id r db in
    let (flags, score) = assess c r begun in
    let stored = store_flags r id flags begun in
    let listed = on_watchlist r.user_id db.watch_list in
    let same = some-find (λ e. e.name == r.user_id && e.is_active) db.watch_list in
    let verdict =
      status_of_score c r begun
      ∙ ap (λ b. if b then AmlCheckStatus.failed else AmlCheckStatus.passed) same in
    (
      (_, concluded_check c id r db new, verdict, refl),
      (_, refl, verdict),
      reviews-request_review id r (final_status score) (update_check id (conclude c score) stored)
            listed (status_of_score c r begun)
          ∙ ap (λ rows. if listed then rows ++ open_review id r ∷ [] else rows)
              (reviews-store_flags r id flags begun)
          ∙ ap (λ b. if b then db.reviews ++ open_review id r ∷ [] else db.reviews) same,
    )
