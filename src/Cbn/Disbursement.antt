-- ===== src/Cbn/Disbursement.antt =====
-- validateDisbursementMethod of src/shared/middleware/cbn-compliance.ts, on double-precision numbers.
use sohcahtoa_api.Prelude.{
  ℕ, ◌*◌, ◌<◌, ◌≡◌, Bool, true, false, not, ◌&&◌, Option, none, some, is_some, leb, ltb, nat_abs,
  if◌then◌else◌, arith,
}
use sohcahtoa_api.Doubles.{double, plus, minus, quotient}
use sohcahtoa_api.Errors.{Result, ok, err, invalid, succeeds}
use sohcahtoa_api.Cbn.Rules.{Body, DisbursementMethod}

abbrev pub max_cash_only : ℕ
max_cash_only = 500 * 100

abbrev pub is_cash_pickup : DisbursementMethod → Bool
is_cash_pickup DisbursementMethod.cash_pickup = true
is_cash_pickup _ = false

-- the double of an amount in cents
abbrev number : ℕ → ℕ
number cents = double (100 * cents)

-- cash / (cash + card) > 0.25 + 0.01
abbrev pub too_much_cash : ℕ → ℕ → Bool
too_much_cash cash card =
    ltb (plus (double 2500) (double 100))
      (quotient (number cash) (plus (number cash) (number card)))

-- Math.abs(cash + card - amount) > 0.01
abbrev pub wrong_total : ℕ → ℕ → ℕ → Bool
wrong_total cash card amount =
    ltb (double 100) (nat_abs (minus (plus (number cash) (number card)) (number amount)))

-- the checks of a split, if both parts are given
unfoldable pub validate_split : ℕ → Option ℕ → Option ℕ → Result (Unit {0})
validate_split amount (some cash) (some card) =
    if too_much_cash cash card
    then err (invalid "Cash disbursement cannot exceed 25% for amounts above $500")
    else if wrong_total cash card amount
    then err (invalid "Disbursement amounts do not match foreign amount")
    else ok tt
validate_split amount cash card = ok tt

unfoldable pub validate_known : Option ℕ → Option DisbursementMethod → Body → Result (Unit {0})
unfolding validate_split
validate_known (some amount) (some method) b =
    if leb amount max_cash_only
    then ok tt
    else if is_cash_pickup method && not (is_some b.card_amount)
    then err (invalid "Transactions above $500 require split disbursement")
    else validate_split amount b.cash_amount b.card_amount
validate_known _ _ b = ok tt

unfoldable pub validate_disbursement_method : Body → Result (Unit {0})
unfolding validate_known
validate_disbursement_method b = validate_known b.foreign_amount b.disbursement_method b

-- An amount above 500 USD for pickup in cash is refused, unless a part goes to a card.
pub cash_only_refused :
    (b : Body) (amount : ℕ)
    → b.foreign_amount ≡ some amount
    → b.disbursement_method ≡ some DisbursementMethod.cash_pickup
    → b.card_amount ≡ none
    → 50000 < amount
    → succeeds (validate_disbursement_method b) ≡ false
unfolding validate_disbursement_method validate_known validate_split
cash_only_refused b amount ha hm hk big = rw ha (rw hm (rw hk (ground arith)))
