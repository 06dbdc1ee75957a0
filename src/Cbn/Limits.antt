-- ===== src/Cbn/Limits.antt =====
-- checkTransactionLimits of src/shared/middleware/cbn-compliance.ts.
pub mod Bounds
use Prim.Native.String.{◌++◌ as ◌+++◌}
use sohcahtoa_api.Prelude.{
  ℕ, ◌+◌, ◌-◌, ◌*◌, ◌/◌, Bool, ◌&&◌, Option, none, some, List, [], ◌∷◌, ◌++◌, ◌==◌, ltb, find,
  filter, sum_by, if◌then◌else◌,
}
use sohcahtoa_api.Errors.{Result, ok, err, forbidden_error}
use sohcahtoa_api.Exec.{Exec, pure, gets, ◌>>=◌, ◌>>◌}
use sohcahtoa_api.Cbn.Rules.{TransactionType, type_code, type_name, TypeLimits, limits_of, Body}

-- a row of transaction_limits
pub record LimitRow : Type 0 where
  pub user_id : ℕ
  pub type : TransactionType
  pub quarter : ℕ
  pub year : ℕ
  pub quarterly_limit : ℕ
  pub yearly_limit : ℕ
  pub current_quarter_usage : ℕ
  pub current_year_usage : ℕ

pub record Clock : Type 0 where
  pub month : ℕ  -- from 0
  pub year : ℕ

abbrev pub quarter_of : Clock → ℕ
quarter_of c = c.month / 3 + 1

-- where: { userId, type, year }
abbrev pub in_year : ℕ → TransactionType → ℕ → LimitRow → Bool
in_year user type year r =
    r.user_id == user && (type_code r.type == type_code type && r.year == year)

-- where: { userId, type, quarter, year }
abbrev pub in_quarter : ℕ → TransactionType → Clock → LimitRow → Bool
in_quarter user type c r = in_year user type c.year r && r.quarter == quarter_of c

abbrev pub new_row : ℕ → TransactionType → Clock → TypeLimits → LimitRow
new_row user type c l = record {
  user_id = user;
  type = type;
  quarter = quarter_of c;
  year = c.year;
  quarterly_limit = l.quarterly_limit;
  yearly_limit = l.yearly_limit;
  current_quarter_usage = 0;
  current_year_usage = 0;
}

-- the row of the quarter, which is created if there is none
unfoldable pub limit_record :
    ℕ → TransactionType → Clock → TypeLimits → Exec (List LimitRow) LimitRow
limit_record user type c l rows = elim (find (in_quarter user type c) rows) [
  | some r ↦ (ok r, rows)
  | none ↦ (ok (new_row user type c l), rows ++ new_row user type c l ∷ [])
]

abbrev pub used_in_year : ℕ → TransactionType → ℕ → List LimitRow → ℕ
used_in_year user type year rows =
    sum_by (λ r. r.current_quarter_usage) (filter (in_year user type year) rows)

-- req.body._limitInfo
pub record LimitInfo : Type 0 where
  pub quarterly_remaining : ℕ
  pub yearly_remaining : ℕ
  pub quarterly_usage : ℕ
  pub yearly_usage : ℕ

-- the two checks; the differences are those of numbers that the checks have compared
unfoldable pub judge : TransactionType → ℕ → TypeLimits → ℕ → ℕ → Result (Option LimitInfo)
judge type amount l quarter year =
    if ltb l.quarterly_limit (quarter + amount)
    then err (forbidden_error ("Quarterly limit exceeded for " +++ type_name type))
    else if ltb l.yearly_limit (year + amount)
    then err (forbidden_error ("Yearly limit exceeded for " +++ type_name type))
    else ok (
        some (record {
          quarterly_remaining = l.quarterly_limit - quarter;
          yearly_remaining = l.yearly_limit - year;
          quarterly_usage = quarter;
          yearly_usage = year;
        }))

-- the middleware, once the user, the type and the amount are known
unfoldable pub check_limits :
    Clock → ℕ → TransactionType → ℕ → TypeLimits → Exec (List LimitRow) (Option LimitInfo)
unfolding judge
check_limits c user type amount l = do
  r ← limit_record user type c l
  total ← gets (used_in_year user type c.year)
  λ rows. (judge type amount l r.current_quarter_usage total, rows)

-- none: the request goes on without limits
abbrev pub check_known :
    Clock → Option ℕ → Option TransactionType → Option ℕ → Exec (List LimitRow) (Option LimitInfo)
check_known c (some user) (some type) (some amount) = elim (limits_of type) [
  | none ↦ pure none
  | some l ↦ check_limits c user type amount l
]
check_known c _ _ _ = pure none

unfoldable pub check_transaction_limits : Clock → Body → Exec (List LimitRow) (Option LimitInfo)
check_transaction_limits c b = check_known c b.user_id b.type b.foreign_amount
