-- ===== src/Customer/Totals/Sums.antt =====
-- The totals of the groups and the overall total, as sums by themselves.
use sohcahtoa_api.Prelude.{
  ℕ, ◌+◌, ◌≡◌, refl, ap, ◌∙◌, Bool, true, false, arith, Option, none, some, List, [], ◌∷◌, filter,
}
use sohcahtoa_api.Cbn.Rules.{TransactionType, TransactionMode}
use sohcahtoa_api.Customer.Rows.{Transaction}
use sohcahtoa_api.Customer.Groups.{Group, resolve_transaction_group, first_group, tourist_group}
use sohcahtoa_api.Customer.Totals.{
  Arithmetic, GroupTotal, Totals, UsdRate, add_amount, add_each, amount_in_usd, no_totals,
  is_counted, get_totals_by_group,
}

-- every type has a group
resolved :
    (type : TransactionType) (mode : Option TransactionMode)
    → (g : Group) × (resolve_transaction_group type mode ≡ some g)
unfolding resolve_transaction_group first_group
resolved TransactionType.pta mode = (Group.buying, refl)
resolved TransactionType.bta mode = (Group.buying, refl)
resolved TransactionType.school_fees mode = (Group.buying, refl)
resolved TransactionType.medical mode = (Group.buying, refl)
resolved TransactionType.professional_body mode = (Group.buying, refl)
resolved TransactionType.tourist_fx mode = (tourist_group mode, refl)
resolved TransactionType.resident_fx mode = (Group.selling, refl)
resolved TransactionType.expatriate_fx mode = (Group.selling, refl)
resolved TransactionType.imto_remittance mode = (Group.remittance, refl)
resolved TransactionType.cash_remittance mode = (Group.remittance, refl)

abbrev pub is_bought : Option Group → Bool
is_bought (some Group.buying) = true
is_bought _ = false

abbrev pub is_sold : Option Group → Bool
is_sold (some Group.selling) = true
is_sold _ = false

abbrev pub is_remitted : Option Group → Bool
is_remitted (some Group.remittance) = true
is_remitted _ = false

abbrev pub in_any : Option Group → Bool
in_any g = true

module _ {F : Type 0} (num : Arithmetic F) where
  abbrev pub add_if : Bool → Option F → GroupTotal F → GroupTotal F
  add_if false n g = g
  add_if true none g = g
  add_if true (some n) g = record {
    total_amount = num.add g.total_amount n;
    transaction_count = g.transaction_count + 1;
  }

  -- the sum over the transactions whose group is wanted, in their order
  unfoldable pub sum_from :
      (Option Group → Bool)
      → List (UsdRate F)
      → List (UsdRate F)
      → List Transaction
      → GroupTotal F
      → GroupTotal F
  sum_from p rates custom [] g = g
  sum_from p rates custom (t ∷ ts) g =
      let n = amount_in_usd num rates custom t in
      sum_from p rates custom ts (add_if (p (resolve_transaction_group t.type t.mode)) n g)

  -- what the loop adds to each of the four totals
  abbrev split : Option Group → Option F → Totals F → Totals F
  split g n t = record {
    overall = add_if true n t.overall;
    bought = add_if (is_bought g) n t.bought;
    sold = add_if (is_sold g) n t.sold;
    remitted = add_if (is_remitted g) n t.remitted;
  }

  add_amount_lem :
      (n : Option F) (g : Group) (t : Totals F) → add_amount num n (some g) t ≡ split (some g) n t
  add_amount_lem none Group.buying t = refl
  add_amount_lem none Group.selling t = refl
  add_amount_lem none Group.remittance t = refl
  add_amount_lem (some n) Group.buying t = refl
  add_amount_lem (some n) Group.selling t = refl
  add_amount_lem (some n) Group.remittance t = refl

  add_each_lem :
      (rates custom : List (UsdRate F)) (ts : List Transaction) (t : Totals F)
      → add_each num rates custom ts t ≡ record {
        overall = sum_from in_any rates custom ts t.overall;
        bought = sum_from is_bought rates custom ts t.bought;
        sold = sum_from is_sold rates custom ts t.sold;
        remitted = sum_from is_remitted rates custom ts t.remitted;
      }
  unfolding add_each sum_from
  add_each_lem rates custom [] t = refl
  add_each_lem rates custom (x ∷ xs) t =
      let (g, is_g) = resolved x.type x.mode in
      let n = amount_in_usd num rates custom x in
      rw is_g (
        ap (add_each num rates custom xs) (add_amount_lem n g t)
        ∙ add_each_lem rates custom xs (split (some g) n t))

  AddsUp : GroupTotal F → GroupTotal F → GroupTotal F → GroupTotal F → Type 0
  AddsUp o b s r =
      o.transaction_count ≡ b.transaction_count + s.transaction_count + r.transaction_count

  counts_step :
      (g : Group) (n : Option F) (o b s r : GroupTotal F)
      → AddsUp o b s r
      → AddsUp
          (add_if true n o)
          (add_if (is_bought (some g)) n b)
          (add_if (is_sold (some g)) n s)
          (add_if (is_remitted (some g)) n r)
  unfolding AddsUp
  counts_step g none o b s r h = ground (arith, h)
  counts_step g (some n) o b s r h = ground (arith, h)

  counts_lem :
      (rates custom : List (UsdRate F)) (ts : List Transaction) (o b s r : GroupTotal F)
      → AddsUp o b s r
      → AddsUp
          (sum_from in_any rates custom ts o)
          (sum_from is_bought rates custom ts b)
          (sum_from is_sold rates custom ts s)
          (sum_from is_remitted rates custom ts r)
  unfolding sum_from
  counts_lem rates custom [] o b s r h = h
  counts_lem rates custom (x ∷ xs) o b s r h =
      let (g, is_g) = resolved x.type x.mode in
      let n = amount_in_usd num rates custom x in
      rw is_g (counts_lem rates custom xs _ _ _ _ (counts_step g n o b s r h))

  -- Of the user's completed transactions with an amount, the overall total is the rounded sum of
  -- all that have a rate, and that of each group the rounded sum of those whose type and mode
  -- resolve to it, in their order; and the transactions counted overall are those counted in the
  -- three groups together, so none is left out and none counted twice: in any arithmetic.
  pub totals_add_up :
      (user : ℕ) (rates custom : List (UsdRate F)) (transactions : List Transaction)
      → let t = get_totals_by_group num user rates custom transactions in
        let counted = filter (is_counted user) transactions in
        let start : GroupTotal F = record { total_amount = num.nought; transaction_count = 0 } in
        let sum : (Option Group → Bool) → GroupTotal F =
          λ p. sum_from p rates custom counted start in
        (t.overall.total_amount ≡ num.to_cents (sum in_any).total_amount)
        × (t.bought.total_amount ≡ num.to_cents (sum is_bought).total_amount)
        × (t.sold.total_amount ≡ num.to_cents (sum is_sold).total_amount)
        × (t.remitted.total_amount ≡ num.to_cents (sum is_remitted).total_amount)
        × (t.overall.transaction_count
            ≡ t.bought.transaction_count + t.sold.transaction_count + t.remitted.transaction_count)
  unfolding get_totals_by_group AddsUp
  totals_add_up user rates custom transactions =
      let counted = filter (is_counted user) transactions in
      let start : GroupTotal F = record { total_amount = num.nought; transaction_count = 0 } in
      let each = add_each_lem rates custom counted (no_totals num) in
      let counts = counts_lem rates custom counted start start start start refl in
      (
        ap (λ t. num.to_cents t.overall.total_amount) each,
        ap (λ t. num.to_cents t.bought.total_amount) each,
        ap (λ t. num.to_cents t.sold.total_amount) each,
        ap (λ t. num.to_cents t.remitted.total_amount) each,
        rw each counts,
      )
