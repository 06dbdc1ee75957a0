-- ===== src/Tests/Money.antt =====
-- Checks against money laundering on a small database.
use sohcahtoa_api.Prelude.{refl, none, some, ◌≡◌, true, [], ◌∷◌, ◌++◌}
use sohcahtoa_api.Errors.{ok}
use sohcahtoa_api.Aml.{
  AmlDb, AmlCheckRequest, AmlCheckResponse, Clock, perform_aml_check, new_check, AmlCheck,
  AmlCheckStatus, ReviewStatus,
}
use sohcahtoa_api.Aml.Scoring.{perform_lem, check_by}
use sohcahtoa_api.Table.{find_unique}

abbrev clock : Clock
clock = record { now = 5000; thirty_days_ago = 2000 }

abbrev request : AmlCheckRequest
request = record { transaction_id = 70; user_id = 8; amount = 2000000 }

abbrev watched : AmlDb
watched = record {
  checks = new_check clock 11 request ∷ [];
  flags = [];
  reviews = [];
  watch_list = (record { name = 8; is_active = true }) ∷ [];
  events = [];
}

not_checked : check_by 12 watched ≡ none
unfolding find_unique
not_checked = refl

perform_lem_example :
    let left = (perform_aml_check clock 12 request watched).1 in
    ((k : AmlCheck) × (check_by 12 left ≡ some k)
      × (k.status ≡ AmlCheckStatus.failed)
      × (k.checked_at ≡ some clock.now))
    × ((response : AmlCheckResponse) × ((perform_aml_check clock 12 request watched).0
          ≡ ok response)
        × (response.status ≡ AmlCheckStatus.failed))
    × (left.reviews
        ≡ watched.reviews
          ++ record {
            check_id = 12;
            transaction_id = request.transaction_id;
            reviewer_id = none;
            status = ReviewStatus.pending;
            decision = none;
            notes = none;
            reviewed_at = none;
          }
            ∷ [])
perform_lem_example = perform_lem clock 12 request watched not_checked
