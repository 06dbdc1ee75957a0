-- ===== src/Payments/Deposits/Repeats.antt =====
-- A webhook that Providus sends again.
use sohcahtoa_api.Prelude.{
  ℕ, ◌≡◌, refl, sym, ap, ◌∙◌, true, false, Option, none, some, is_some, List, any, ◌==◌, [], ◌∷◌,
  ◌++◌, arith, Option-cases, Bool-cases, inl, inr, ==_refl, subst,
}
use sohcahtoa_api.Errors.{Error, Result, ok, err, wrap, prisma, unique_violation}
use sohcahtoa_api.Exec.{result, after, raise, recover, pure, ◌>>◌}
use sohcahtoa_api.Exec.Keeps.{Keeps, keeps_rules}
use sohcahtoa_api.Table.{find_unique}
use sohcahtoa_api.Table.Laws.{find_unique-append_none, key-find_unique}
use sohcahtoa_api.Store.{Db}
use sohcahtoa_api.Store.Rows.{Deposit, VirtualAccount}
use sohcahtoa_api.Store.Writes.{
  account_by_number, deposit_clash, deposit_by_session, create_deposit,
}
use sohcahtoa_api.Payments.World.{World}
use sohcahtoa_api.Payments.Deposits.{
  WebhookPayload, verify_deposit, record_deposit, handle_deposit_webhook, account_not_found,
  account_blacklisted, new_deposit,
}
use sohcahtoa_api.Payments.Deposits.Webhook.{webhook_lem}
use sohcahtoa_api.Payments.Deposits.Recorded.{Recorded, verify-Recorded}

is_some-found : {A : Type 0} (o : Option A) (a : A) → o ≡ some a → is_some o ≡ true
is_some-found o a h = rw h

last_session :
    (session : ℕ) (d : Deposit) (ds : List Deposit)
    → find_unique (λ x. x.session_id) session ds ≡ none
    → (d.session_id == session) ≡ true
    → find_unique (λ x. x.session_id) session (ds ++ d ∷ []) ≡ some d
unfolding find_unique
last_session session d ds new same =
    find_unique-append_none (λ x. x.session_id) session ds (d ∷ []) new ∙ rw same

found_of : {A : Type 0} (o : Option A) → is_some o ≡ true → (a : A) × (o ≡ some a)
found_of none h = absurd (ground arith)
found_of (some a) h = (a, refl)

-- A deposit that could be created is there after its verification.
recorded :
    (w : World) (id : ℕ) (p : WebhookPayload) (a : VirtualAccount) (db : Db)
    → deposit_by_session p.session_id db ≡ none
    → any (deposit_clash (new_deposit w id p a)) db.deposits ≡ false
    → Recorded p.session_id (after (record_deposit w id p a) db)
unfolding record_deposit create_deposit
recorded w id p a db new free =
    let row = new_deposit w id p a in
    let grown : Db = record db { deposits = db.deposits ++ row ∷ [] } in
    let start : Recorded p.session_id grown = record {
      there =
          is_some-found (deposit_by_session p.session_id grown) row
            (last_session p.session_id row db.deposits new (==_refl p.session_id));
    } in
    let rest : Keeps (Recorded p.session_id) (verify_deposit w id >> pure row) =
      search (keeps_rules, verify-Recorded) depth 8 in
    rw (free, after) (rest.at grown start)

refused :
    (w : World) (id : ℕ) (p : WebhookPayload) (a : VirtualAccount) (db : Db)
    → any (deposit_clash (new_deposit w id p a)) db.deposits ≡ true
    → result (record_deposit w id p a) db ≡ err (prisma unique_violation)
unfolding record_deposit create_deposit
refused w id p a db taken = rw (taken, result)

state-recover :
    {A : Type 0} (h : Error → Error) (q : Result A × Db) → (recover (λ e. raise (h e)) q).1 ≡ q.1
state-recover h (ok a, db) = refl
state-recover h (err e, db) = refl

result-recover :
    {A : Type 0} (h : Error → Error) (q : Result A × Db) (e : Error)
    → q.0 ≡ err e
    → (recover (λ x. raise (h x)) q).0 ≡ err (h e)
result-recover h (ok a, db) e failed = absurd (ground arith)
result-recover h (err x, db) e failed = let same : x ≡ e = ground arith in ap (λ y. err (h y)) same

no_answer : (e : Error) (d : Deposit) → err e ≡ ok d → ⊥
no_answer e d h = ground arith

module _ (w : World) (id : ℕ) (p : WebhookPayload) (db : Db) (d : Deposit)
    (answered : result (handle_deposit_webhook w id p) db ≡ ok d) where
  abbrev Done : Result Deposit × Db → Type 0
  Done q = handle_deposit_webhook w id p db ≡ q

  not_refused : {A : Type 0} (e : Error) (left : Db) → Done (err e, left) → A
  not_refused e left done = absurd (no_answer e d (sym (ap (λ q. q.0) done) ∙ answered))

  new-Recorded :
      (a : VirtualAccount)
      → deposit_by_session p.session_id db ≡ none
      → Done (
          recover
            (λ e. raise (wrap "Failed to process deposit webhook" e))
            (record_deposit w id p a db))
      → Recorded p.session_id (after (handle_deposit_webhook w id p) db)
  new-Recorded a new done =
      elim (Bool-cases (any (deposit_clash (new_deposit w id p a)) db.deposits)) [
        | inl taken ↦
            let failed =
              result-recover (wrap "Failed to process deposit webhook") (record_deposit w id p a db)
                _ (refused w id p a db taken) in
            absurd (no_answer _ d (sym (ap (λ q. q.0) done ∙ failed) ∙ answered))
        | inr free ↦
            subst (Recorded p.session_id)
              (sym (
                ap (λ q. q.1) done
                ∙ state-recover (wrap "Failed to process deposit webhook")
                    (record_deposit w id p a db)))
              (recorded w id p a db new free)
      ]

  answered-Recorded : Recorded p.session_id (after (handle_deposit_webhook w id p) db)
  answered-Recorded =
      let whole = webhook_lem w id p db in
      elim (Option-cases (account_by_number p.account_number db)) [
        | inl missing ↦ not_refused account_not_found db (whole ∙ rw missing)
        | inr (a, account) ↦ elim (Bool-cases a.is_blacklisted) [
          | inl listed ↦ not_refused account_blacklisted db (whole ∙ rw (account, listed))
          | inr in_use ↦ elim (Option-cases (deposit_by_session p.session_id db)) [
            | inl new ↦ new-Recorded a new (whole ∙ simp (account, in_use, new))
            | inr (old, found) ↦
                let done : Done (ok old, db) = whole ∙ rw (account, in_use, found) in
                subst (Recorded p.session_id) (sym (ap (λ q. q.1) done))
                  (record { there = is_some-found _ old found })
          ]
        ]
      ]

-- Once a webhook has been answered with a deposit, any later webhook with its session id for an
-- account in use is answered with a deposit of that session and writes nothing.
pub webhook_once :
    (w w' : World) (id id' : ℕ) (p p' : WebhookPayload) (db : Db) (d : Deposit) (a : VirtualAccount)
    → let left = after (handle_deposit_webhook w id p) db in
      result (handle_deposit_webhook w id p) db ≡ ok d
      → p'.session_id ≡ p.session_id
      → account_by_number p'.account_number left ≡ some a
      → a.is_blacklisted ≡ false
      → (d' : Deposit) × (handle_deposit_webhook w' id' p' left ≡ (ok d', left))
        × (d'.session_id ≡ p.session_id)
webhook_once w w' id id' p p' db d a answered same account in_use =
    let left = after (handle_deposit_webhook w id p) db in
    let (d', found) =
      found_of (deposit_by_session p.session_id left)
        ((answered-Recorded w id p db d answered).there) in
    (
      d',
      webhook_lem w' id' p' left ∙ rw (account, in_use, same, found),
      key-find_unique (λ x. x.session_id) p.session_id left.deposits d' found,
    )
