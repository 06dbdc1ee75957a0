-- ===== src/Aml/Review.antt =====
-- What a review of a check writes.
use sohcahtoa_api.Prelude.{
  ℕ, ◌≡◌, Option, none, some, [], ◌∷◌, ◌++◌, Option-cases, inl, inr, String,
}
use sohcahtoa_api.Errors.{ok, err, not_found_error}
use sohcahtoa_api.Table.{find_unique}
use sohcahtoa_api.Aml.{AmlDb, Clock, review_check, review_of, reviewed}

-- A review of a check that exists appends one review, with the check's transaction, and one event;
-- it leaves the check, and so its status, as it was. A review of any other check is answered with
-- 404 and writes nothing.
pub review_lem :
    (c : Clock) (id reviewer : ℕ) (decision : String) (notes : Option String) (db : AmlDb)
    → review_check c id reviewer decision notes db ≡ elim (find_unique (λ k. k.id) id db.checks) [
      | none ↦ (err (not_found_error "AML check not found"), db)
      | some check ↦
          let review = review_of c id check reviewer decision notes in
          (
            ok review,
            record {
              checks = db.checks;
              flags = db.flags;
              reviews = db.reviews ++ review ∷ [];
              watch_list = db.watch_list;
              events = db.events ++ reviewed id decision ∷ [];
            },
          )
    ]
unfolding review_check
review_lem c id reviewer decision notes db =
    elim (Option-cases (find_unique (λ k. k.id) id db.checks)) [
      | inl missing ↦ rw missing
      | inr (check, found) ↦ rw found
    ]
