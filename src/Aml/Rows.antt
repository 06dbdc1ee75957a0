-- ===== src/Aml/Rows.antt =====
-- The rows of the compliance tables of prisma/schema.prisma, the request and the events.
use sohcahtoa_api.Prelude.{ℕ, String, Bool, Option, List}

pub data AmlCheckStatus : Type 0 where
  pending in_progress passed flagged failed : AmlCheckStatus

pub data AmlFlagType : Type 0 where
  threshold_exceeded suspicious_pattern high_risk_country frequent_transactions : AmlFlagType
  structuring politically_exposed_person sanctions_list adverse_media : AmlFlagType

pub data AmlFlagSeverity : Type 0 where
  low medium high critical : AmlFlagSeverity

pub record AmlCheck : Type 0 where
  pub id : ℕ
  pub transaction_id : ℕ
  pub user_id : ℕ
  pub amount : ℕ
  pub status : AmlCheckStatus
  pub risk_score : ℕ
  pub recommendations : List String
  pub created_at : ℕ
  pub checked_at : Option ℕ

pub record AmlFlag : Type 0 where
  pub type : AmlFlagType
  pub severity : AmlFlagSeverity

pub data ReviewStatus : Type 0 where
  pending under_review approved rejected requires_more_info : ReviewStatus

pub record ComplianceReview : Type 0 where
  pub check_id : ℕ
  pub transaction_id : ℕ
  pub reviewer_id : Option ℕ  -- none for the empty string
  pub status : ReviewStatus
  pub decision : Option String
  pub notes : Option String
  pub reviewed_at : Option ℕ

pub record WatchListEntry : Type 0 where
  pub name : ℕ
  pub is_active : Bool

-- what is published on the event bus
pub data Event : Type 0 where
  flag_raised : ℕ → AmlFlag → Event
  review_required : ℕ → ℕ → AmlCheckStatus → Event
  reviewed : ℕ → String → Event

pub record AmlDb : Type 0 where
  pub checks : List AmlCheck
  pub flags : List (ℕ × AmlFlag)  -- with the id of the check
  pub reviews : List ComplianceReview
  pub watch_list : List WatchListEntry
  pub events : List Event

pub record AmlCheckRequest : Type 0 where
  pub transaction_id : ℕ
  pub user_id : ℕ
  pub amount : ℕ

-- the time of the call, and that of thirty days before
pub record Clock : Type 0 where
  pub now : ℕ
  pub thirty_days_ago : ℕ
