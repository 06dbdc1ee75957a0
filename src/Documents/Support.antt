-- ===== src/Documents/Support.antt =====
-- What verifies a request, and how results, reviews and updates affect it.
use sohcahtoa_api.Prelude.{
  ℕ, ◌==◌, Bool, true, not, ◌&&◌, ◌||◌, Option, none, some, is_some, any, All, List, [], ◌∷◌, ◌++◌,
  String, ◌≡◌, refl, arith, ==_refl, if◌then◌else◌,
}
use sohcahtoa_api.Table.Laws.{All-modify_unique}
use sohcahtoa_api.Admin.Rows.{VerificationStatus}
use sohcahtoa_api.Documents.Rows.{VerificationRequest, VerificationResult, AdminReview, DocumentDb}
use sohcahtoa_api.Documents.Checks.{Check}
use sohcahtoa_api.Documents.Requests.{
  is_verified, update_found, add_result, result_of, decided, add_review, review_of,
}

-- a result or a review that verified the request
abbrev pub supported : List VerificationResult → List AdminReview → ℕ → Bool
supported results reviews id =
    any (λ x. x.request_id == id && is_verified x.status) results
    || any (λ v. v.request_id == id && is_verified v.status) reviews

abbrev pub is_sound : List VerificationResult → List AdminReview → VerificationRequest → Bool
is_sound results reviews r =
    not (is_verified r.status) || (is_some r.completed_at && supported results reviews r.id)

pub record Sound (db : DocumentDb) : Type 0 where
  pub at : All (λ r. is_sound db.results db.reviews r ≡ true) db.requests

-- sound, and what verifies the request is there already if the status says so
pub record Ready (id : ℕ) (status : VerificationStatus) (db : DocumentDb) : Type 0 where
  pub sound : Sound db
  pub evidence : (not (is_verified status) || supported db.results db.reviews id) ≡ true

pub any-append :
    {A : Type 0} (p : A → Bool) (xs : List A) (x : A) → any p (xs ++ x ∷ []) ≡ (any p xs || p x)
any-append p [] x = ground arith
any-append p (y ∷ ys) x = let rest = any-append p ys x in ground arith

pub All-weaken :
    {A : Type 0} (P Q : A → Type 0) → ((a : A) → P a → Q a) → (xs : List A) → All P xs → All Q xs
All-weaken P Q k [] h = tt
All-weaken P Q k (x ∷ xs) h = (k x h.0, All-weaken P Q k xs h.1)

supported-more_results :
    (xs : List VerificationResult) (x : VerificationResult) (vs : List AdminReview) (id : ℕ)
    → supported (xs ++ x ∷ []) vs id
      ≡ (supported xs vs id || (x.request_id == id && is_verified x.status))
supported-more_results xs x vs id =
    let more = any-append (λ x. x.request_id == id && is_verified x.status) xs x in
    rw more (ground arith)

supported-more_reviews :
    (xs : List VerificationResult) (vs : List AdminReview) (v : AdminReview) (id : ℕ)
    → supported xs (vs ++ v ∷ []) id
      ≡ (supported xs vs id || (v.request_id == id && is_verified v.status))
supported-more_reviews xs vs v id =
    let more = any-append (λ v. v.request_id == id && is_verified v.status) vs v in
    rw more (ground arith)

weakened : (v d s s' : Bool) → (not v || (d && s)) ≡ true → (not v || (d && (s || s'))) ≡ true
weakened v d s s' h = ground arith

supplied : (v s e : Bool) → e ≡ true → (not v || (s || (e && v))) ≡ true
supplied v s e h = ground arith

pub add_result-Ready :
    (r : VerificationRequest) (c : Check) (db : DocumentDb)
    → Sound db
    → Ready r.id c.status (add_result r c db)
add_result-Ready r c db h = record {
  sound = record {
    at =
        All-weaken _ _
          (λ a e. rw (supported-more_results db.results (result_of r c) db.reviews a.id) (
            weakened (is_verified a.status) (is_some a.completed_at)
              (supported db.results db.reviews a.id) (r.id == a.id && is_verified c.status) e))
          db.requests h.at;
  };
  evidence = rw (supported-more_results db.results (result_of r c) db.reviews r.id) (
      supplied (is_verified c.status) (supported db.results db.reviews r.id) (r.id == r.id)
        (==_refl r.id));
}

pub add_review-Ready :
    (id reviewer : ℕ) (decision : String) (comments : Option String) (db : DocumentDb)
    → Sound db
    → Ready id (decided decision) (add_review (review_of id reviewer decision comments) db)
add_review-Ready id reviewer decision comments db h =
    let v = review_of id reviewer decision comments in
    record {
      sound = record {
        at =
            All-weaken _ _
              (λ a e. rw (supported-more_reviews db.results db.reviews v a.id) (
                weakened (is_verified a.status) (is_some a.completed_at)
                  (supported db.results db.reviews a.id)
                  (id == a.id && is_verified (decided decision)) e))
              db.requests h.at;
      };
      evidence = rw (supported-more_reviews db.results db.reviews v id) (
          supplied (is_verified (decided decision)) (supported db.results db.reviews id) (id == id)
            (==_refl id));
    }

pub joined : (v d s : Bool) → (not v || d) ≡ true → (not v || s) ≡ true → (not v || (d && s)) ≡ true
joined v d s hd hs = ground arith

pub dated : (now : ℕ) (v : Bool) → (not v || is_some (if v then some now else none)) ≡ true
dated now v = ground arith

pub or_true : (b : Bool) → (b || true) ≡ true
or_true b = ground arith

-- an update that leaves every row it changes sound
pub update_found-Sound :
    (found : Option VerificationRequest) (id : ℕ) (f : VerificationRequest → VerificationRequest)
    (db : DocumentDb)
    → ((r : VerificationRequest)
        → (r.id == id) ≡ true
        → is_sound db.results db.reviews (f r) ≡ true)
    → Sound db
    → Sound (update_found found id f db).1
update_found-Sound none id f db k h = h
update_found-Sound (some r) id f db k h = record {
  at =
      All-modify_unique (λ r. is_sound db.results db.reviews r ≡ true) (λ r. r.id) id f
        (λ a same e. k a same) db.requests h.at;
}

pub update_found-lists :
    (found : Option VerificationRequest) (id : ℕ) (f : VerificationRequest → VerificationRequest)
    (db : DocumentDb)
    → let left = (update_found found id f db).1 in
      (left.results ≡ db.results) × (left.reviews ≡ db.reviews)
update_found-lists none id f db = (refl, refl)
update_found-lists (some r) id f db = (refl, refl)
