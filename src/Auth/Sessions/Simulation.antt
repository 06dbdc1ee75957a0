-- ===== src/Auth/Sessions/Simulation.antt =====
-- How methods of src/modules/auth/services/auth.service.ts that write sessions change the grant of a
-- token: rules for blocks, and the writes themselves.
use sohcahtoa_api.Prelude.{
  ℕ, ◌==◌, Bool, true, false, ◌&&◌, ◌||◌, Option, some, List, [], ◌∷◌, ◌++◌, any, ◌≡◌, refl, sym,
  ◌∙◌, ap, Option-cases, Bool-cases, inl, inr, arith, if◌then◌else◌,
}
use sohcahtoa_api.Errors.{Result, ok, err}
use sohcahtoa_api.Exec.{Exec, pure, continue, modify, ◌>>=◌}
use sohcahtoa_api.Table.{find_unique, modify_unique}
use sohcahtoa_api.Table.Laws.{find_unique-modify_where_found}
use sohcahtoa_api.Auth.Rows.{Session, World, User, AuthDb}
use sohcahtoa_api.Auth.Tables.{session_by_token, create_session, close_sessions}
use sohcahtoa_api.Auth.Login.{new_session, open_session, logout}
use sohcahtoa_api.Auth.Sessions.{
  Grant, grant_of, granted, Change, unchanged, closed, closed_all, apply, on_ok, new_grant,
}
use sohcahtoa_api.Auth.Sessions.Quiet.{Quiet}

-- The grant of every token is changed as the result says.
pub record Simulates {S A : Type 0} (change : A → Change) (m : Exec (AuthDb S) A) : Type 0 where
  pub at :
      (db : AuthDb S) (token : ℕ)
      → granted token (m db).1 ≡ apply (on_ok change (m db).0) token (granted token db)

unmoved :
    {A : Type 0} (r : Result A) (token : ℕ) (g : Option Grant)
    → apply (on_ok (λ _. unchanged) r) token g ≡ g
unmoved (ok a) token g = refl
unmoved (err e) token g = refl

module _ {S A : Type 0} where
  pub Simulates-Quiet : (m : Exec (AuthDb S) A) → Quiet m → Simulates (λ _. unchanged) m
  Simulates-Quiet m quiet = record {
    at = λ db token.
        ap (λ sessions. grant_of (find_unique (λ s. s.refresh_token) token sessions)) (quiet.at db)
        ∙ sym (unmoved (m db).0 token (granted token db));
  }

module _ {S A B : Type 0} (change : B → Change) where
  after_quiet :
      (k : A → Exec (AuthDb S) B)
      → ((a : A) → Simulates change (k a))
      → (p : Result A × AuthDb S) (db : AuthDb S) → p.1.sessions ≡ db.sessions
      → (token : ℕ)
      → granted token (continue k p).1
        ≡ apply (on_ok change (continue k p).0) token (granted token db)
  after_quiet k later (ok a, d) db same token =
      (later a).at d token
      ∙ ap
          (λ sessions.
            apply (on_ok change (k a d).0) token
              (grant_of (find_unique (λ s. s.refresh_token) token sessions)))
          same
  after_quiet k later (err e, d) db same token =
      ap (λ sessions. grant_of (find_unique (λ s. s.refresh_token) token sessions)) same

  pub Simulates-bind :
      (m : Exec (AuthDb S) A) (k : A → Exec (AuthDb S) B)
      → Quiet m
      → ((a : A) → Simulates change (k a))
      → Simulates change (m >>= k)
  Simulates-bind m k quiet later = record {
    at = λ db token. after_quiet k later (m db) db (quiet.at db) token;
  }

  pub replied :
      (f : A → B) (p : Result A × AuthDb S) (token : ℕ) (g : Option Grant)
      → granted token p.1 ≡ apply (on_ok (λ a. change (f a)) p.0) token g
      → granted token (continue (λ a. pure (f a)) p).1
        ≡ apply (on_ok change (continue (λ a. pure (f a)) p).0) token g
  replied f (ok a, d) token g h = h
  replied f (err e, d) token g h = h

  -- the answer of a method is made from its result
  pub Simulates-reply :
      (m : Exec (AuthDb S) A) (f : A → B)
      → Simulates (λ a. change (f a)) m
      → Simulates change (m >>= λ a. pure (f a))
  Simulates-reply m f h = record {
    at = λ db token. replied f (m db) token (granted token db) (h.at db token);
  }

-- what a lookup by token finds once a session with a new token stands at the end
find_session-append :
    (token : ℕ) (row : Session) (xs : List Session)
    → any (λ s. s.id == row.id || s.refresh_token == row.refresh_token) xs ≡ false
    → find_unique (λ s. s.refresh_token) token (xs ++ row ∷ []) ≡ (
        if row.refresh_token == token
        then some row
        else find_unique (λ s. s.refresh_token) token xs)
unfolding find_unique
find_session-append token row [] new = refl
find_session-append token row (x ∷ xs) new =
    let rest = find_session-append token row xs (ground arith) in ground arith

new_or_old :
    (b : Bool) (row : Session) (old : Option Session)
    → grant_of (if b then some row else old) ≡ (if b then grant_of (some row) else grant_of old)
new_or_old true row old = refl
new_or_old false row old = refl

module _ {S : Type 0} where
  pub open_session-Simulates :
      (w : World) (user : User) → Simulates {S = S} (new_grant w) (open_session w user)
  unfolding open_session create_session
  open_session-Simulates w user = record {
    at = λ db token.
        elim (Bool-cases
          (any (λ s. s.id == w.session_id || s.refresh_token == w.refresh_token) db.sessions)) [
            | inl taken ↦ rw taken
            | inr new ↦ rw new (
                ap grant_of (find_session-append token (new_session w user) db.sessions new)
                ∙ new_or_old (w.refresh_token == token) (new_session w user)
                    (session_by_token token db))
          ];
  }

  pub close_sessions-granted :
      (user token : ℕ) (db : AuthDb S)
      → granted token (close_sessions user db) ≡ apply (closed_all user) token (granted token db)
  unfolding close_sessions
  close_sessions-granted user token db =
      ap grant_of (
        find_unique-modify_where_found (λ s. s.refresh_token)
          (λ s. s.user_id == user && s.is_active) (λ s. record s { is_active = false }) (λ s. refl)
          token db.sessions)
      ∙ elim (Option-cases (session_by_token token db)) [
        | inl missing ↦ rw missing
        | inr (s, found) ↦ rw found (ground arith)
      ]

  logout_of-granted :
      (session token : ℕ) (db : AuthDb S)
      → granted token (record db {
        sessions =
            modify_unique (λ s. s.id) session (λ s. record s { is_active = false }) db.sessions;
      })
        ≡ apply (closed session) token (granted token db)
  unfolding modify_unique
  logout_of-granted session token db =
      ap grant_of (
        find_unique-modify_where_found (λ s. s.refresh_token) (λ s. s.id == session)
          (λ s. record s { is_active = false }) (λ s. refl) token db.sessions)
      ∙ elim (Option-cases (session_by_token token db)) [
        | inl missing ↦ rw missing
        | inr (s, found) ↦ rw found (ground arith)
      ]

  pub logout-Simulates : (session : ℕ) → Simulates {S = S} (λ _. closed session) (logout session)
  unfolding logout
  logout-Simulates session = record {
    at = λ db token. elim (Option-cases (find_unique (λ s. s.id) session db.sessions)) [
      | inl missing ↦ rw missing
      | inr (s, found) ↦ rw found (logout_of-granted session token db)
    ];
  }

  -- a block that ends by closing a user's sessions
  pub Simulates-close :
      (user : ℕ) (f : AuthDb S → AuthDb S)
      → ((db : AuthDb S) → (f db).sessions ≡ db.sessions)
      → Simulates (λ _. closed_all user) (modify (λ db. close_sessions user (f db)))
  Simulates-close user f same = record {
    at = λ db token.
        close_sessions-granted user token (f db)
        ∙ ap
            (λ sessions.
              apply (closed_all user) token
                (grant_of (find_unique (λ s. s.refresh_token) token sessions)))
            (same db);
  }
