-- ===== src/Aml.antt =====
-- src/modules/compliance/services/compliance.service.ts: the check of a transaction against money
-- laundering and its review. Amounts are in cents; ids of new records are arguments; descriptions,
-- JSON details and log lines are left out.
pub mod Rows
pub mod Scoring
pub mod Review
use text.Mathlib.Text.{◌==◌ as str_eq}
use sohcahtoa_api.Prelude.{
  ℕ, ◌+◌, ◌*◌, String, Bool, true, false, ◌&&◌, ◌||◌, Option, none, some, List, [], ◌∷◌, ◌++◌, map,
  ◌==◌, ltb, leb, find, filter, length, is_some, if◌then◌else◌,
}
use sohcahtoa_api.Errors.{not_found_error}
use sohcahtoa_api.Exec.{Exec, pure, gets, modify, ◌>>=◌, ◌>>◌, or_raise}
use sohcahtoa_api.Table.{find_unique, modify_unique}
pub use Rows.*

-- the flag of a check that raises one, and its riskImpact
abbrev pub Finding : Type 0
Finding = AmlFlag × ℕ

unfoldable pub check_threshold : AmlCheckRequest → Option Finding
check_threshold r =
    if ltb (10000 * 100) r.amount
    then some
        (record { type = AmlFlagType.threshold_exceeded; severity = AmlFlagSeverity.medium }, 20)
    else none

abbrev pub is_recent : Clock → ℕ → AmlCheck → Bool
is_recent c user check = check.user_id == user && leb c.thirty_days_ago check.created_at

unfoldable pub check_frequency : Clock → ℕ → List AmlCheck → Option Finding
check_frequency c user checks =
    if ltb 10 (length (filter (is_recent c user) checks))
    then some
        (record { type = AmlFlagType.frequent_transactions; severity = AmlFlagSeverity.medium }, 25)
    else none

abbrev pub on_watchlist : ℕ → List WatchListEntry → Bool
on_watchlist user entries = is_some (find (λ e. e.name == user && e.is_active) entries)

unfoldable pub check_watchlist : ℕ → List WatchListEntry → Option Finding
check_watchlist user entries =
    if on_watchlist user entries
    then some
        (record { type = AmlFlagType.sanctions_list; severity = AmlFlagSeverity.critical }, 80)
    else none

-- checkCountryRisk skips its check.
unfoldable pub check_country_risk : AmlCheckRequest → Option Finding
check_country_risk r = none

-- callNFIUAPI is a stand-in that never flags.
abbrev pub call_nfiu_api : AmlCheckRequest → Bool
call_nfiu_api r = false

unfoldable pub check_nfiu : AmlCheckRequest → Option Finding
check_nfiu r =
    if call_nfiu_api r
    then some (record { type = AmlFlagType.adverse_media; severity = AmlFlagSeverity.high }, 50)
    else none

-- if (check.flagged) { flags.push(check.flag); riskScore += check.riskImpact }
unfoldable pub collect : List (Option Finding) → List AmlFlag × ℕ
collect [] = ([], 0)
collect (none ∷ rest) = collect rest
collect (some (flag, impact) ∷ rest) =
    let (flags, score) = collect rest in (flag ∷ flags, impact + score)

unfoldable pub assess : Clock → AmlCheckRequest → AmlDb → List AmlFlag × ℕ
unfolding collect check_threshold check_frequency check_watchlist check_country_risk check_nfiu
assess c r db = collect (
    check_threshold r
    ∷ check_frequency c r.user_id db.checks
    ∷ check_watchlist r.user_id db.watch_list
    ∷ check_country_risk r
    ∷ check_nfiu r
    ∷ [])

abbrev pub is_severe : AmlFlagSeverity → Bool
is_severe AmlFlagSeverity.high = true
is_severe AmlFlagSeverity.critical = true
is_severe _ = false

-- the body of the loop that stores the flags
abbrev pub store_flag : AmlCheckRequest → ℕ → AmlFlag → AmlDb → AmlDb
store_flag r id flag db = record db {
  flags = db.flags ++ (id, flag) ∷ [];
  events =
      if is_severe flag.severity
      then db.events ++ flag_raised r.transaction_id flag ∷ []
      else db.events;
}

unfoldable pub store_flags : AmlCheckRequest → ℕ → List AmlFlag → AmlDb → AmlDb
store_flags r id [] db = db
store_flags r id (flag ∷ rest) db = store_flags r id rest (store_flag r id flag db)

unfoldable pub final_status : ℕ → AmlCheckStatus
final_status score =
    if leb 80 score
    then AmlCheckStatus.failed
    else if leb 50 score
    then AmlCheckStatus.flagged
    else AmlCheckStatus.passed

abbrev pub recommendations_for : AmlCheckStatus → List String
recommendations_for AmlCheckStatus.failed =
    "Transaction should be blocked" ∷ "Report to NFIU required" ∷ []
recommendations_for AmlCheckStatus.flagged =
    "Requires compliance officer review" ∷ "Additional documentation may be needed" ∷ []
recommendations_for _ = "Transaction can proceed" ∷ []

abbrev pub new_check : Clock → ℕ → AmlCheckRequest → AmlCheck
new_check c id r = record {
  id = id;
  transaction_id = r.transaction_id;
  user_id = r.user_id;
  amount = r.amount;
  status = AmlCheckStatus.pending;
  risk_score = 0;
  recommendations = [];
  created_at = c.now;
  checked_at = none;
}

abbrev pub update_check : ℕ → (AmlCheck → AmlCheck) → AmlDb → AmlDb
update_check id f db = record db { checks = modify_unique (λ k. k.id) id f db.checks }

abbrev pub conclude : Clock → ℕ → AmlCheck → AmlCheck
conclude c score k = record k {
  status = final_status score;
  risk_score = score;
  recommendations = recommendations_for (final_status score);
  checked_at = some c.now;
}

abbrev pub open_review : ℕ → AmlCheckRequest → ComplianceReview
open_review id r = record {
  check_id = id;
  transaction_id = r.transaction_id;
  reviewer_id = none;
  status = ReviewStatus.pending;
  decision = none;
  notes = none;
  reviewed_at = none;
}

abbrev pub needs_review : AmlCheckStatus → Bool
needs_review AmlCheckStatus.flagged = true
needs_review AmlCheckStatus.failed = true
needs_review _ = false

unfoldable pub request_review : ℕ → AmlCheckRequest → AmlCheckStatus → AmlDb → AmlDb
request_review id r status db =
    if needs_review status
    then record db {
      reviews = db.reviews ++ open_review id r ∷ [];
      events = db.events ++ review_required r.transaction_id id status ∷ [];
    }
    else db

-- include: { flags: true }
unfoldable pub flags_of : ℕ → AmlDb → List AmlFlag
flags_of id db = map (λ p. p.1) (filter (λ p. p.0 == id) db.flags)

pub record AmlCheckResponse : Type 0 where
  pub check_id : ℕ
  pub transaction_id : ℕ
  pub status : AmlCheckStatus
  pub risk_score : ℕ
  pub flags : List AmlFlag
  pub recommendations : List String

-- the check's record, PENDING and then IN_PROGRESS
abbrev pub begin_check : Clock → ℕ → AmlCheckRequest → AmlDb → AmlDb
begin_check c id r db =
    update_check id (λ k. record k { status = AmlCheckStatus.in_progress })
      (record db { checks = db.checks ++ new_check c id r ∷ [] })

unfoldable pub perform_aml_check : Clock → ℕ → AmlCheckRequest → Exec AmlDb AmlCheckResponse
unfolding assess final_status
perform_aml_check c id r = do
  modify (begin_check c id r)
  (flags, score) ← gets (assess c r)
  modify (store_flags r id flags)
  modify (update_check id (conclude c score))
  modify (request_review id r (final_status score))
  stored ← gets (flags_of id)
  pure (record {
    check_id = id;
    transaction_id = r.transaction_id;
    status = final_status score;
    risk_score = score;
    flags = stored;
    recommendations = recommendations_for (final_status score);
  })

abbrev pub review_of : Clock → ℕ → AmlCheck → ℕ → String → Option String → ComplianceReview
review_of c id check reviewer decision notes = record {
  check_id = id;
  transaction_id = check.transaction_id;
  reviewer_id = some reviewer;
  status = if str_eq decision "APPROVE" then ReviewStatus.approved else ReviewStatus.rejected;
  decision = some decision;
  notes = notes;
  reviewed_at = some c.now;
}

unfoldable pub review_check : Clock → ℕ → ℕ → String → Option String → Exec AmlDb ComplianceReview
review_check c id reviewer decision notes = do
  found ← gets (λ db. find_unique (λ k. k.id) id db.checks)
  check ← or_raise found (not_found_error "AML check not found")
  modify (λ db. record db {
    reviews = db.reviews ++ review_of c id check reviewer decision notes ∷ [];
    events = db.events ++ reviewed id decision ∷ [];
  })
  pure (review_of c id check reviewer decision notes)
