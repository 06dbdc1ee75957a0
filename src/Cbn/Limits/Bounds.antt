-- ===== src/Cbn/Limits/Bounds.antt =====
-- What the check of limits lets through, and that no request uses up a limit.
use sohcahtoa_api.Prelude.{
  ℕ, ◌+◌, ◌≤◌, ◌≡◌, ◌↔◌, refl, ap, sym, subst, true, Option, none, some, List, [], ◌∷◌, ◌++◌, arith,
  All, All-append, Option-cases, Bool-cases, inl, inr, find,
}
use sohcahtoa_api.Errors.{ok, succeeds}
use sohcahtoa_api.Exec.{result, after}
use sohcahtoa_api.Cbn.Rules.{TransactionType, TypeLimits, limits_of, Body}
use sohcahtoa_api.Cbn.Limits.{
  LimitRow, Clock, in_year, in_quarter, new_row, limit_record, used_in_year, check_limits, judge,
  check_known, check_transaction_limits,
}

-- the usage of the quarter: that of its row, or 0
abbrev pub used_in_quarter : ℕ → TransactionType → Clock → List LimitRow → ℕ
used_in_quarter user type c rows = elim (find (in_quarter user type c) rows) [
  | none ↦ 0
  | some r ↦ r.current_quarter_usage
]

usage-append :
    (user : ℕ) (type : TransactionType) (year : ℕ) (rows : List LimitRow) (r : LimitRow)
    → r.current_quarter_usage ≡ 0
    → used_in_year user type year (rows ++ r ∷ []) ≡ used_in_year user type year rows
usage-append user type year [] r zero = ground arith
usage-append user type year (x ∷ xs) r zero = ground (arith, usage-append user type year xs r zero)

module _ (c : Clock) (user : ℕ) (type : TransactionType) (l : TypeLimits)
    (rows : List LimitRow) where
  record_new :
      find (in_quarter user type c) rows ≡ none
      → limit_record user type c l rows
        ≡ (ok (new_row user type c l), rows ++ new_row user type c l ∷ [])
  unfolding limit_record
  record_new new = rw (new, limit_record)

  record_old :
      (r : LimitRow)
      → find (in_quarter user type c) rows ≡ some r
      → limit_record user type c l rows ≡ (ok r, rows)
  unfolding limit_record
  record_old r found = rw (found, limit_record)

  check_limits_lem :
      (amount : ℕ)
      → check_limits c user type amount l rows ≡ (
        judge type amount l (used_in_quarter user type c rows) (used_in_year user type c.year rows),
        (limit_record user type c l rows).1,
      )
  unfolding check_limits
  check_limits_lem amount = elim (Option-cases (find (in_quarter user type c) rows)) [
    | inl new ↦
        let total = usage-append user type c.year rows (new_row user type c l) refl in
        rw (record_new new) (
          rw (new, used_in_quarter)
            (ap (λ y. (judge type amount l 0 y, rows ++ new_row user type c l ∷ [])) total))
    | inr (r, found) ↦ rw (record_old r found) (rw (found, used_in_quarter))
  ]

  judge_iff :
      (amount quarter year : ℕ)
      → (succeeds (judge type amount l quarter year) ≡ true)
        ↔ ((quarter + amount ≤ l.quarterly_limit) × (year + amount ≤ l.yearly_limit))
  unfolding judge
  judge_iff amount quarter year = (λ h. (ground arith, ground arith), λ h. ground arith)

  -- The check succeeds exactly if the amount fits both into what is left of the quarter's limit
  -- and into what is left of the year's.
  pub check_limits_iff :
      (amount : ℕ)
      → (succeeds (result (check_limits c user type amount l) rows) ≡ true) ↔ (
          (used_in_quarter user type c rows + amount ≤ l.quarterly_limit)
          × (used_in_year user type c.year rows + amount ≤ l.yearly_limit))
  check_limits_iff amount =
      rw (check_limits_lem amount, result)
        (judge_iff amount (used_in_quarter user type c rows) (used_in_year user type c.year rows))

-- No row counts any usage.
abbrev pub Unused : List LimitRow → Type 0
Unused rows = All (λ r. r.current_quarter_usage ≡ 0) rows

limit_record-Unused :
    (user : ℕ) (type : TransactionType) (c : Clock) (l : TypeLimits) (rows : List LimitRow)
    → Unused rows
    → Unused (limit_record user type c l rows).1
limit_record-Unused user type c l rows h =
    elim (Option-cases (find (in_quarter user type c) rows)) [
      | inl new ↦ rw (record_new c user type l rows new) (
          All-append (λ r. r.current_quarter_usage ≡ 0) rows (new_row user type c l ∷ []) h
            (refl, tt))
      | inr (r, found) ↦ rw (record_old c user type l rows r found) h
    ]

check-Unused :
    (c : Clock) (b : Body) (rows : List LimitRow)
    → Unused rows
    → Unused (after (check_transaction_limits c b) rows)
unfolding check_transaction_limits
check-Unused c b rows h = known b.user_id b.type b.foreign_amount
  where
    known :
        (u : Option ℕ) (t : Option TransactionType) (a : Option ℕ)
        → Unused (check_known c u t a rows).1
    known none t a = h
    known (some u) none a = h
    known (some u) (some t) none = h
    known (some u) (some t) (some a) = elim (Option-cases (limits_of t)) [
      | inl free ↦ rw (free, check_known) h
      | inr (l, limited) ↦
          rw (limited, check_known)
            (subst (λ p. Unused p.1) (sym (check_limits_lem c u t l rows a))
              (limit_record-Unused u t c l rows h))
    ]

-- the table after the checks of some requests
unfoldable pub after_requests : List (Clock × Body) → List LimitRow → List LimitRow
after_requests [] rows = rows
after_requests ((c, b) ∷ rest) rows =
    after_requests rest (after (check_transaction_limits c b) rows)

requests-Unused :
    (rs : List (Clock × Body)) (rows : List LimitRow)
    → Unused rows
    → Unused (after_requests rs rows)
unfolding after_requests
requests-Unused [] rows h = h
requests-Unused ((c, b) ∷ rest) rows h =
    requests-Unused rest (after (check_transaction_limits c b) rows) (check-Unused c b rows h)

quarterly-Unused :
    (user : ℕ) (type : TransactionType) (c : Clock) (rows : List LimitRow)
    → Unused rows
    → used_in_quarter user type c rows ≡ 0
quarterly-Unused user type c [] h = refl
quarterly-Unused user type c (r ∷ rs) h = elim (Bool-cases (in_quarter user type c r)) [
  | inl here ↦ rw (here, used_in_quarter) (h.0)
  | inr away ↦ rw (away, used_in_quarter) (quarterly-Unused user type c rs h.1)
]

yearly-Unused :
    (user : ℕ) (type : TransactionType) (year : ℕ) (rows : List LimitRow)
    → Unused rows
    → used_in_year user type year rows ≡ 0
yearly-Unused user type year [] h = refl
yearly-Unused user type year (r ∷ rs) h = elim (Bool-cases (in_year user type year r)) [
  | inl here ↦
      rw here (let first = h.0 in let rest = yearly-Unused user type year rs h.1 in omega arith)
  | inr away ↦ rw away (yearly-Unused user type year rs h.1)
]

-- Requests do not use up a limit: after the checks of any requests, from a table whose rows
-- all count a usage of 0, an amount within the two limits of its type is let through again.
pub limits_never_bind :
    (rs : List (Clock × Body)) (c : Clock) (user : ℕ) (type : TransactionType) (amount : ℕ)
    (l : TypeLimits) (before : List LimitRow)
    → Unused before
    → amount ≤ l.quarterly_limit
    → amount ≤ l.yearly_limit
    → succeeds (result (check_limits c user type amount l) (after_requests rs before)) ≡ true
limits_never_bind rs c user type amount l before none_used hq hy =
    let unused = requests-Unused rs before none_used in
    let rows = after_requests rs before in
    let q = quarterly-Unused user type c rows unused in
    let y = yearly-Unused user type c.year rows unused in
    (check_limits_iff c user type l rows amount).1 (omega arith, omega arith)
