-- ===== src/Payments/Outbound/Creation.antt =====
-- Creating and approving a batch of settlements.
use text.Mathlib.Text.{◌==◌ as str_eq}
use sohcahtoa_api.Prelude.{
  ◌++◌, ℕ, ◌<◌, ◌≡◌, refl, ap, ◌∙◌, true, false, Bool, Option, none, some, List, [], ◌∷◌, arith,
  ◌==◌, length, Bool-cases, inl, inr, if◌then◌else◌, sum_by, String, any, subst, sym, ==_eq,
}
use sohcahtoa_api.Errors.{Result, ok, err, app, invalid, internal_error, succeeds}
use sohcahtoa_api.Exec.{result, after}
use sohcahtoa_api.Table.{modify_where, find_unique}
use sohcahtoa_api.Table.Laws.{map_found, find_unique-modify_where, find_unique-modify_where_found}
use sohcahtoa_api.Store.{Db}
use sohcahtoa_api.Store.Rows.{OutboundSettlement, SettlementBatch, SettlementStatus}
use sohcahtoa_api.Store.Writes.{outbound_by, batch_by, create_batch, update_batch}
use sohcahtoa_api.Payments.World.{World}
use sohcahtoa_api.Payments.Outbound.Status.{is_pending}
use sohcahtoa_api.Payments.Outbound.{mark_approved}
use sohcahtoa_api.Payments.Outbound.Batches.{
  CreateBatchOptions, approve_settlement_batch, create_settlement_batch, in_batch, listed,
  pending_among, new_batch,
}

-- What createSettlementBatch has done when it returns the batch.
pub record IsBatched (id : ℕ) (o : CreateBatchOptions) (db : Db) (b : SettlementBatch) (db' : Db)
    : Type 0 where
  pub all_pending : length (pending_among o.settlement_ids db) ≡ length o.settlement_ids
  pub some_listed : 0 < length o.settlement_ids
  pub total : b.total_amount ≡ sum_by (λ s. s.amount) (pending_among o.settlement_ids db)
  pub count : b.total_count ≡ length o.settlement_ids
  pub status : b.status ≡ SettlementStatus.pending
  pub linked :
      (j : ℕ)
      → outbound_by j db'
        ≡ map_found
            (λ s. if listed o.settlement_ids s then record s { batch_id = some id } else s)
            (outbound_by j db)

module _ (id : ℕ) (number : String) (o : CreateBatchOptions) (db : Db) where
  abbrev taken : Bool
  taken = any (λ b. str_eq b.batch_number number) db.batches

  abbrev linked_db : SettlementBatch → Db
  linked_db b = record db {
    batches = db.batches ++ b ∷ [];
    outbound =
        modify_where (listed o.settlement_ids) (λ s. record s { batch_id = some id }) db.outbound;
  }

  module _ (s : OutboundSettlement) (rest : List OutboundSettlement)
      (e : pending_among o.settlement_ids db ≡ s ∷ rest) where
    abbrev batch : SettlementBatch
    batch = new_batch id number o (s ∷ rest) s.currency

    created :
        (length (s ∷ rest) == length o.settlement_ids) ≡ true
        → taken ≡ false
        → create_settlement_batch id number o db ≡ (ok batch, linked_db batch)
    unfolding create_settlement_batch create_batch
    created same new = rw e (rw same (rw new))

    not_created :
        (length (s ∷ rest) == length o.settlement_ids) ≡ false
        → create_settlement_batch id number o db
          ≡ (err (invalid "Some settlements are not pending or do not exist"), db)
    unfolding create_settlement_batch
    not_created other = rw e (rw other)

    not_unique :
        (length (s ∷ rest) == length o.settlement_ids) ≡ true
        → taken ≡ true
        → create_settlement_batch id number o db
          ≡ (err (app internal_error "Failed to create settlement batch" 500), db)
    unfolding create_settlement_batch create_batch
    not_unique same dup = rw e (rw same (rw dup))

  empty_list :
      pending_among o.settlement_ids db ≡ []
      → (err_ : Result SettlementBatch × Db) × (create_settlement_batch id number o db ≡ err_)
        × (succeeds err_.0 ≡ false)
  unfolding create_settlement_batch
  empty_list e = elim (Bool-cases (0 == length o.settlement_ids)) [
    | inl same ↦ (
      (err (app internal_error "Failed to create settlement batch" 500), db),
      rw e (rw same),
      refl,
    )
    | inr other ↦ (
      (err (invalid "Some settlements are not pending or do not exist"), db),
      rw e (rw other),
      refl,
    )
  ]

  abbrev Good : Result SettlementBatch × Db → Type 0
  Good p = (b : SettlementBatch) → p.0 ≡ ok b → IsBatched id o db b p.1

  batched :
      (ss : List OutboundSettlement)
      → pending_among o.settlement_ids db ≡ ss
      → Good (create_settlement_batch id number o db)
  batched [] e =
      let (p, q, fails) = empty_list e in subst Good (sym q) (λ b h. absurd (ground arith))
  batched (s ∷ rest) e = elim (Bool-cases (length (s ∷ rest) == length o.settlement_ids)) [
    | inr other ↦ subst Good (sym (not_created s rest e other)) (λ b h. absurd (ground arith))
    | inl same ↦ elim (Bool-cases taken) [
      | inl dup ↦ subst Good (sym (not_unique s rest e same dup)) (λ b h. absurd (ground arith))
      | inr new ↦ subst Good (sym (created s rest e same new)) (λ b h.
          let eq : batch s rest e ≡ b = ground arith in
          subst (λ x. IsBatched id o db x (linked_db (batch s rest e))) eq
            (record {
              all_pending = rw e (==_eq _ _ same);
              some_listed = omega (arith, ==_eq _ _ same);
              total = rw e;
              count = ==_eq _ _ same;
              status = refl;
              linked = λ j.
                  find_unique-modify_where_found (λ x. x.id) (listed o.settlement_ids)
                    (λ x. record x { batch_id = some id }) (λ x. refl) j db.outbound;
            }))
    ]
  ]

  -- When createSettlementBatch returns a batch, at least one id is listed and as many settlements
  -- are PENDING under a listed id as ids are listed; the batch is PENDING, its total is the sum of
  -- their amounts and its count their number; and exactly the settlements under a listed id are
  -- linked to it.
  pub create_batch-IsBatched :
      (b : SettlementBatch)
      → result (create_settlement_batch id number o) db ≡ ok b
      → IsBatched id o db b (after (create_settlement_batch id number o) db)
  create_batch-IsBatched = batched (pending_among o.settlement_ids db) refl

approve_batch_lem :
    (w : World) (id by : ℕ) (db : Db) (b : SettlementBatch)
    → batch_by id db ≡ some b
    → is_pending b.status ≡ true
    → (after (approve_settlement_batch w id by) db).outbound
      ≡ modify_where (in_batch id) (mark_approved w by) db.outbound
unfolding approve_settlement_batch update_batch
approve_batch_lem w id by db b found pending = rw (found, after) (rw pending (rw found))

abbrev pub belongs_to : ℕ → Option ℕ → Bool
belongs_to id none = false
belongs_to id (some b) = b == id

in_batch_lem :
    (id : ℕ) (s : OutboundSettlement) (o : Option ℕ)
    → s.batch_id ≡ o
    → in_batch id s ≡ belongs_to id s.batch_id
in_batch_lem id s none e = rw e
in_batch_lem id s (some b) e = rw e

-- Approving a batch that is PENDING makes each settlement that is linked to it PROCESSING with the
-- approver and the time on it, whatever its status was, a SUBMITTED or COMPLETED one too; the
-- other settlements stay.
pub approve_batch_sets :
    (w : World) (id by : ℕ) (db : Db) (b : SettlementBatch)
    → batch_by id db ≡ some b
    → is_pending b.status ≡ true
    → (j : ℕ) (s : OutboundSettlement) → outbound_by j db ≡ some s
    → outbound_by j (after (approve_settlement_batch w id by) db)
      ≡ some (
          if belongs_to id s.batch_id
          then record s {
            status = SettlementStatus.processing;
            approved_by = some by;
            approved_at = some w.now;
          }
          else s)
approve_batch_sets w id by db b found pending j s there =
    ap (find_unique (λ x. x.id) j) (approve_batch_lem w id by db b found pending)
    ∙ find_unique-modify_where (λ x. x.id) (mark_approved w by) (λ x. refl) (in_batch id) j
        db.outbound s there
    ∙ ap (λ b. some (if b then mark_approved w by s else s)) (in_batch_lem id s s.batch_id refl)
