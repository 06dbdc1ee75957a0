-- ===== src/Agents/Disbursement.antt =====
-- recordDisbursement of src/modules/agents/services/agent-transaction.service.ts: what it leaves where
-- it succeeds.
use sohcahtoa_api.Prelude.{
  ℕ, ◌==◌, ◌<◌, ◌||◌, String, Bool, true, false, Option, none, some, List, [], ◌∷◌, ◌++◌, find, any,
  Text, ==_refl, ◌&&◌, Bool-cases, inl, inr, ◌≡◌, refl, ◌∙◌, arith, ap,
}
use sohcahtoa_api.Errors.{Result, ok}
use sohcahtoa_api.Exec.{result, after}
use sohcahtoa_api.Table.{modify_where, modify_unique}
use sohcahtoa_api.Store.Rows.{TransactionStatus, TransactionStep, SettlementStatus}
use sohcahtoa_api.Cbn.Rules.{DisbursementMethod}
use sohcahtoa_api.Customer.Rows.{Transaction, File}
use sohcahtoa_api.Agents.Rows.{AgentDb, DisbursementInput, AgentWorld, AgentProfile, Payout}
use sohcahtoa_api.Agents.Failures.{resolve_agent-Reads}
use sohcahtoa_api.Agents.Transactions.{
  disbursing, made_by, resolve_agent, disburse, record_disbursement, created_by, is_over,
  is_approved, payout_of, new_payout, create_payout, start_disbursement, is_for,
}

paired :
    {A : Type 0} (p : Result A × AgentDb) (r : Result A) (db : AgentDb)
    → p.0 ≡ r
    → p.1 ≡ db
    → p ≡ (r, db)
paired p r db hr hd = rw (hr, hd)

is_over_approved : (s : TransactionStatus) → is_approved s ≡ true → is_over s ≡ false
is_over_approved s h = ground arith

last_found :
    {A : Type 0} (p : A → Bool) (xs : List A) (x : A)
    → find p xs ≡ none
    → p x ≡ true
    → find p (xs ++ x ∷ []) ≡ some x
last_found p [] x h hx = rw hx
last_found p (y ∷ ys) x h hx = ground (arith, last_found p ys x)

-- a change of rows that a search does not look at
found_changed :
    {A : Type 0} (p q : A → Bool) (f : A → A)
    → ((a : A) → p (f a) ≡ p a)
    → ((a : A) → p a ≡ true → q a ≡ true)
    → (xs : List A) (a : A) → find p xs ≡ some a
    → find p (modify_where q f xs) ≡ some (f a)
unfolding modify_where
found_changed p q f keeps covers [] a h = absurd (ground arith)
found_changed p q f keeps covers (x ∷ xs) a h = elim (Bool-cases (p x)) [
  | inl here ↦
      let first : x ≡ a = ground arith in
      rw (covers x here, keeps x, here) (ap (λ y. some (f y)) first)
  | inr away ↦ elim (Bool-cases (q x)) [
    | inl changed ↦
        rw (changed, keeps x, away) (found_changed p q f keeps covers xs a (ground arith))
    | inr stays ↦ rw (stays, away) (found_changed p q f keeps covers xs a (ground arith))
  ]
]

still_created :
    (id agent : ℕ) (method : DisbursementMethod) (notes : Option String) (db : AgentDb)
    (t : Transaction)
    → created_by id agent db ≡ some t
    → created_by id agent (start_disbursement id method notes db) ≡ some (disbursing method t)
unfolding modify_unique
still_created id agent method notes db t mine =
    found_changed (λ x. x.id == id && made_by agent x.created_by_agent_id) (λ x. x.id == id)
      (disbursing method) (λ x. refl) (λ x h. ground arith) db.customer.transactions t mine

-- what the writes leave where the transaction has no settlement yet
abbrev settled :
    AgentWorld → ℕ → ℕ → ℕ → Text → DisbursementMethod → String → Option String → AgentDb → AgentDb
settled w agent id amount currency method url notes db =
    record (start_disbursement id method notes db) {
      payouts = db.payouts ++ new_payout w agent id amount currency method url notes ∷ [];
    }

disburse_new :
    (w : AgentWorld) (agent id amount : ℕ) (currency : Text) (method : DisbursementMethod)
    (url : String) (notes : Option String) (db : AgentDb)
    → payout_of id db ≡ none
    → any (λ p. p.id == w.fresh_id || p.reference_number == w.reference_number) db.payouts ≡ false
    → disburse w agent id amount currency method url notes db ≡ (
      ok (new_payout w agent id amount currency method url notes),
      settled w agent id amount currency method url notes db,
    )
unfolding disburse create_payout
disburse_new w agent id amount currency method url notes db new free = rw (new, free)

-- If an agent records the disbursement of an APPROVED transaction that the agent created and that has
-- no settlement yet, with a total, a method and a receipt that can be uploaded, and the numbers
-- of the new settlement are free, then the call succeeds: the transaction's settlement is COMPLETED
-- over the given total in the transaction's currency, with the receipt and the agent on it, and
-- nobody approved it. The transaction becomes DISBURSEMENT_IN_PROGRESS with the method.
pub disbursement_lem :
    (w : AgentWorld) (user id : ℕ) (input : DisbursementInput) (method : DisbursementMethod)
    (file : File) (url : String) (a : AgentProfile) (t : Transaction) (db : AgentDb)
    → input.transaction_id ≡ some id
    → input.disbursement_method ≡ some method
    → 0 < input.total_amount
    → input.receipt_file ≡ some file
    → result (resolve_agent user) db ≡ ok a
    → created_by id a.id db ≡ some t
    → is_approved t.status ≡ true
    → w.upload_file file ≡ ok url
    → payout_of id db ≡ none
    → any (λ p. p.id == w.fresh_id || p.reference_number == w.reference_number) db.payouts ≡ false
    → let call = record_disbursement w user input in
      ((p : Payout) × (result call db ≡ ok p)
        × (payout_of id (after call db) ≡ some p)
        × (p.status ≡ SettlementStatus.completed)
        × (p.amount ≡ input.total_amount)
        × (p.currency ≡ t.currency)
        × (p.payment_proof ≡ some url)
        × (p.initiated_by ≡ a.id)
        × (p.approved_by ≡ none))
      × (created_by id a.id (after call db)
          ≡ some (record t {
            disbursement_method = some method;
            status = TransactionStatus.disbursement_in_progress;
            current_step = TransactionStep.disbursement;
          }))
unfolding record_disbursement
disbursement_lem w user id input method file url a t db hid hm positive hf agent mine approved up
      new free =
    let some_total : (input.total_amount == 0) ≡ false = ground arith in
    let p = new_payout w a.id id input.total_amount t.currency method url input.notes in
    let resolved =
      paired (resolve_agent user db) (ok a) db agent ((resolve_agent-Reads user).at db) in
    let stored : AgentDb = record db { files = db.files ++ url ∷ [] } in
    let made =
      disburse_new w a.id id input.total_amount t.currency method url input.notes stored new free in
    let left = settled w a.id id input.total_amount t.currency method url input.notes stored in
    let done : record_disbursement w user input db ≡ (ok p, left) = rw (
      hid,
      hm,
      some_total,
      hf,
      resolved,
      mine,
      is_over_approved t.status approved,
      approved,
      up,
      made,
    ) in
    (
      (
        p,
        ap (λ q. q.0) done,
        ap (λ q. payout_of id q.1) done ∙ last_found (is_for id) db.payouts p new (==_refl id),
        refl,
        refl,
        refl,
        refl,
        refl,
        refl,
      ),
      ap (λ q. created_by id a.id q.1) done
          ∙ still_created id a.id method input.notes stored t mine,
    )
