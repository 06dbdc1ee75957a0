-- ===== src/Exec.antt =====
-- Asynchronous methods over a database: what was written before an error stays written, so the
-- state comes back beside the error too. Only a method that opens a database transaction rolls rows
-- back (Agents.Transactions.atomically).
pub mod Laws
pub mod Keeps
pub mod Triples
use sohcahtoa_api.Prelude.{◌≡◌, Bool, true, false, Option, none, some}
use sohcahtoa_api.Errors.{Error, Result, ok, err}

abbrev pub Exec {ℓ} : Type 0 → Type ℓ → Type ℓ
Exec S A = S → Result A × S

abbrev pub pure : {S A : Type 0} → A → Exec S A
pure a s = (ok a, s)

-- throw
abbrev pub raise : {S A : Type 0} → Error → Exec S A
raise e s = (err e, s)

abbrev pub gets : {S A : Type 0} → (S → A) → Exec S A
gets f s = (ok (f s), s)

abbrev pub modify : {S : Type 0} → (S → S) → Exec S (Unit {0})
modify f s = (ok tt, f s)

abbrev pub continue : {S A B : Type 0} → (A → Exec S B) → Result A × S → Result B × S
continue f (ok a, s) = f a s
continue f (err e, s) = (err e, s)

infixl 5 ◌>>=◌ ◌>>◌
abbrev pub ◌>>=◌ : {S A B : Type 0} → Exec S A → (A → Exec S B) → Exec S B
◌>>=◌ m f s = continue f (m s)

abbrev pub ◌>>◌ : {S A B : Type 0} → Exec S A → Exec S B → Exec S B
m >> k = m >>= λ _. k

abbrev pub recover : {S A : Type 0} → (Error → Exec S A) → Result A × S → Result A × S
recover handler (ok a, s) = (ok a, s)
recover handler (err e, s) = handler e s

-- try { m } catch (error) { handler(error) }
abbrev pub try_catch : {S A : Type 0} → Exec S A → (Error → Exec S A) → Exec S A
try_catch m handler s = recover handler (m s)

-- if (test) throw e
abbrev pub raise_if : {S : Type 0} → Bool → Error → Exec S (Unit {0})
raise_if true e s = (err e, s)
raise_if false e s = (ok tt, s)

-- if (!row) throw e
abbrev pub or_raise : {S A : Type 0} → Option A → Error → Exec S A
or_raise none e s = (err e, s)
or_raise (some a) e s = (ok a, s)

-- Results of an operation, and the state that it leaves.
abbrev pub result : {S A : Type 0} → Exec S A → S → Result A
result m s = (m s).0

abbrev pub after : {S A : Type 0} → Exec S A → S → S
after m s = (m s).1
