-- ===== src/Agents/Failures.antt =====
-- What a failing call of recordDisbursement of
-- src/modules/agents/services/agent-transaction.service.ts leaves.
use sohcahtoa_api.Prelude.{
  ℕ, String, Bool, true, false, Option, none, some, [], ◌∷◌, ◌++◌, ◌⊎◌, inl, inr, ◌≡◌, refl, ◌∙◌,
  arith, subst,
}
use sohcahtoa_api.Errors.{Error, Result, ok, err}
use sohcahtoa_api.Exec.{Exec, result, after, gets, raise_if, or_raise, ◌>>=◌, continue}
use sohcahtoa_api.Agents.Rows.{AgentDb, DisbursementInput, AgentWorld}
use sohcahtoa_api.Agents.Transactions.{
  atomically, roll_back, keep_file, resolve_agent, record_disbursement,
}

-- the action writes nothing
pub record Reads {A : Type 0} (m : Exec AgentDb A) : Type 0 where
  pub at : (db : AgentDb) → (m db).1 ≡ db

-- the action writes nothing where it throws
record Undone {A : Type 0} (m : Exec AgentDb A) : Type 0 where
  at : (db : AgentDb) (e : Error) → (m db).0 ≡ err e → (m db).1 ≡ db

-- nothing was written, or a file only
abbrev pub OnlyFile : AgentDb → AgentDb → Type 0
OnlyFile db left =
    (left ≡ db) ⊎ ((url : String) × (left ≡ record db { files = db.files ++ url ∷ [] }))

-- the action writes at most a file where it throws
record Clean {A : Type 0} (m : Exec AgentDb A) : Type 0 where
  at : (db : AgentDb) (e : Error) → (m db).0 ≡ err e → OnlyFile db (m db).1

module _ {A : Type 0} where
  Reads-gets : (f : AgentDb → A) → Reads (gets f)
  Reads-gets f = record { at = λ db. refl }

  Reads-or_raise : (o : Option A) (e : Error) → Reads (or_raise {S = AgentDb} o e)
  Reads-or_raise none e = record { at = λ db. refl }
  Reads-or_raise (some a) e = record { at = λ db. refl }

  rolled :
      (db : AgentDb) (p : Result A × AgentDb) (e : Error)
      → (roll_back db p).0 ≡ err e
      → (roll_back db p).1 ≡ db
  rolled db (ok a, left) e h = absurd (ground arith)
  rolled db (err x, left) e h = refl

  Undone-atomically : (m : Exec AgentDb A) → Undone (atomically m)
  Undone-atomically m = record { at = λ db e h. rolled db (m db) e h }

  Clean-upload :
      (r : Result String) (f : String → Exec AgentDb A)
      → ((url : String) → Undone (f url))
      → Clean (keep_file r >>= f)
  Clean-upload (err x) f k = record { at = λ db e h. inl refl }
  Clean-upload (ok url) f k = record { at = λ db e h. inr (url, (k url).at _ e h) }

Reads-raise_if : (b : Bool) (e : Error) → Reads (raise_if b e)
Reads-raise_if true e = record { at = λ db. refl }
Reads-raise_if false e = record { at = λ db. refl }

module _ {A B : Type 0} where
  continue-Reads :
      (f : A → Exec AgentDb B)
      → ((a : A) → Reads (f a))
      → (p : Result A × AgentDb) → (continue f p).1 ≡ p.1
  continue-Reads f k (ok a, db) = (k a).at db
  continue-Reads f k (err e, db) = refl

  Reads-bind :
      (m : Exec AgentDb A) (f : A → Exec AgentDb B)
      → Reads m
      → ((a : A) → Reads (f a))
      → Reads (m >>= f)
  Reads-bind m f r k = record { at = λ db. continue-Reads f k (m db) ∙ r.at db }

  continue-Clean :
      (f : A → Exec AgentDb B)
      → ((a : A) → Clean (f a))
      → (p : Result A × AgentDb) (e : Error) → (continue f p).0 ≡ err e
      → OnlyFile p.1 (continue f p).1
  continue-Clean f k (ok a, db) e h = (k a).at db e h
  continue-Clean f k (err x, db) e h = inl refl

  Clean-bind :
      (m : Exec AgentDb A) (f : A → Exec AgentDb B)
      → Reads m
      → ((a : A) → Clean (f a))
      → Clean (m >>= f)
  Clean-bind m f r k = record {
    at = λ db e h.
        subst (λ d. OnlyFile d (continue f (m db)).1) (r.at db) (continue-Clean f k (m db) e h);
  }

pub resolve_agent-Reads : (user : ℕ) → Reads (resolve_agent user)
unfolding resolve_agent
resolve_agent-Reads user = search (Reads-bind, Reads-gets, Reads-or_raise)

record_disbursement-Clean :
    (w : AgentWorld) (user : ℕ) (input : DisbursementInput)
    → Clean (record_disbursement w user input)
unfolding record_disbursement
record_disbursement-Clean w user input =
    search
      (
        Clean-bind, Clean-upload, Undone-atomically, Reads-gets, Reads-or_raise, Reads-raise_if,
        resolve_agent-Reads,
      )
      depth 40

-- A call of recordDisbursement that fails leaves every table as it was, and the files at the image
-- service too, to which at most one is added.
pub failed_disbursement :
    (w : AgentWorld) (user : ℕ) (input : DisbursementInput) (db : AgentDb) (e : Error)
    → result (record_disbursement w user input) db ≡ err e
    → let left = after (record_disbursement w user input) db in
      (left ≡ db) ⊎ ((url : String) × (left ≡ record db { files = db.files ++ url ∷ [] }))
failed_disbursement w user input db e failed =
    (record_disbursement-Clean w user input).at db e failed
