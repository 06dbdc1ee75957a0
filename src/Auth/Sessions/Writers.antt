-- ===== src/Auth/Sessions/Writers.antt =====
-- How each method of src/modules/auth/services/auth.service.ts that writes sessions changes the
-- grants, and when refreshToken succeeds.
use sohcahtoa_api.Prelude.{
  ℕ, ltb, Bool, true, false, not, Option, none, some, ◌≡◌, refl, Text, is_some, Bool-cases, inl,
  inr,
}
use sohcahtoa_api.Errors.{Error, succeeds, prisma, record_not_found, invalid, not_found_error}
use sohcahtoa_api.Exec.{Exec, pure, gets, modify, raise_if, or_raise, ◌>>=◌, ◌>>◌}
use sohcahtoa_api.Validators.{is_strong}
use sohcahtoa_api.Auth.Rows.{Session, User, reset_key, Redis, Hashing, World, AuthDb}
use sohcahtoa_api.Auth.Tables.{close_sessions, upsert_credential, unauthorized_error, user_by}
use sohcahtoa_api.Auth.Otp.{cached, drop}
use sohcahtoa_api.Auth.Login.{TokenPayload, judge_password, login, refresh_token, payload, is_over}
use sohcahtoa_api.Auth.Passwords.{user_in, reset_password, write_password, change_agent_password}
use sohcahtoa_api.Auth.Agents.{verify_agent_login}
use sohcahtoa_api.Auth.Sessions.{
  grant_of, granted, unchanged, closed_all, apply, on_ok, Reply, answered, new_grant, reset_change,
  is_usable,
}
use sohcahtoa_api.Auth.Sessions.Quiet.{
  Quiet, Quiet-modify, quiet_rules, validate_otp-Quiet, upsert_credential-sessions,
}
use sohcahtoa_api.Auth.Sessions.Others.{agent_account-Quiet, set_agent_password-Quiet}
use sohcahtoa_api.Auth.Sessions.Simulation.{
  Simulates, Simulates-Quiet, Simulates-bind, Simulates-reply, Simulates-close,
  open_session-Simulates,
}

module _ {S : Type 0} where
  judge_password-Simulates :
      (right : Bool) (w : World) (user : User)
      → Simulates {S = S} (new_grant w) (judge_password right w user)
  judge_password-Simulates false w user = record { at = λ db token. refl }
  judge_password-Simulates true w user =
      Simulates-bind _ _ _ (Quiet-modify _ (λ db. refl)) (λ _. open_session-Simulates w user)

  pub login-Simulates :
      (hashing : Hashing) (w : World) (email password : Text)
      → Simulates {S = S} (new_grant w) (login hashing w email password)
  unfolding login
  login-Simulates hashing w email password =
      search (Simulates-bind, quiet_rules, judge_password-Simulates) depth 20

  pub refresh_token-Quiet : (w : World) (token : ℕ) → Quiet {S = S} (refresh_token w token)
  unfolding refresh_token
  refresh_token-Quiet w token = search quiet_rules depth 20

  upsert_credential-Quiet :
      (id user : ℕ) (hash : Text) → Quiet {S = S} (modify (upsert_credential id user hash))
  upsert_credential-Quiet id user hash = record { at = upsert_credential-sessions id user hash }

  close_sessions-Simulates :
      (user : ℕ) → Simulates {S = S} (λ _. closed_all user) (modify (close_sessions user))
  close_sessions-Simulates user = Simulates-close user (λ db. db) (λ db. refl)

  pub change_agent_password-Simulates :
      (hashing : Hashing) (w : World) (id : ℕ) (current password confirmation : Text)
      → Simulates {S = S}
          (λ _. closed_all id)
          (change_agent_password hashing w id current password confirmation)
  unfolding change_agent_password
  change_agent_password-Simulates hashing w id current password confirmation =
      search
        (
          Simulates-bind, quiet_rules, set_agent_password-Quiet, upsert_credential-Quiet,
          close_sessions-Simulates,
        )
        depth 30

-- refreshToken once the session has been looked up
module _ {S : Type 0} (w : World) where
  unfoldable pub refresh_of : Option Session → Exec (AuthDb S) TokenPayload
  refresh_of found = do
    s ← or_raise found (unauthorized_error "Invalid or expired refresh token")
    raise_if (is_over w.now s) (unauthorized_error "Invalid or expired refresh token")
    owner ← gets (user_by s.user_id)
    user ← or_raise owner (prisma record_not_found)
    pure (payload user s.id)

  owner_of :
      (o : Option User) (session : ℕ) (db : AuthDb S)
      → succeeds
          (((or_raise o (prisma record_not_found)) >>= λ user. pure (payload user session)) db).0
        ≡ is_some o
  owner_of none session db = refl
  owner_of (some u) session db = refl

  pub refresh_of-succeeds :
      (found : Option Session) (db : AuthDb S)
      → succeeds (refresh_of found db).0 ≡ is_usable w.now db (grant_of found)
  unfolding refresh_of
  refresh_of-succeeds none db = refl
  refresh_of-succeeds (some s) db =
      let owner = owner_of (user_by s.user_id db) s.id db in
      elim (Bool-cases s.is_active) [
        | inl active ↦ elim (Bool-cases (ltb s.expires_at w.now)) [
          | inl late ↦ rw (active, late)
          | inr early ↦ rw (active, early) owner
        ]
        | inr ended ↦ rw ended
      ]

-- a method that leaves the sessions alone, and answers without one
pub quietly :
    {S A : Type 0} {m : Exec (AuthDb S) A}
    → Quiet m
    → (db : AuthDb S) (token : ℕ)
    → granted token ((m >>= λ a. pure answered) db).1
      ≡ apply
          (on_ok (λ (r : Reply). unchanged) ((m >>= λ a. pure answered) db).0)
          token
          (granted token db)
quietly {m} quiet db token =
    (Simulates-reply (λ _. unchanged) m (λ _. answered) (Simulates-Quiet m quiet)).at db token

module _ {S : Type 0} (redis : Redis S) (hashing : Hashing) where
  pub verify_agent_login-Simulates :
      (w : World) (email otp : Text)
      → Simulates (new_grant w) (verify_agent_login redis w email otp)
  unfolding verify_agent_login
  verify_agent_login-Simulates w email otp =
      search
        (
          Simulates-bind, quiet_rules, validate_otp-Quiet, agent_account-Quiet,
          open_session-Simulates,
        )
        depth 30

  write_password-Simulates :
      (w : World) (token user : ℕ) (password : Text)
      → Simulates {S = S}
          (λ _. closed_all user)
          (modify (write_password redis hashing w token user password))
  unfolding write_password
  write_password-Simulates w token user password = record {
    at = λ db t.
        (Simulates-close user
            (λ d.
              upsert_credential w.fresh_id user (hashing.hash w.salt password)
                (drop redis (reset_key token) d))
            (λ d. upsert_credential-sessions w.fresh_id user _ (drop redis (reset_key token) d))).at
          db t;
  }

  -- resetPassword once the token has given a user
  reset_of : World → ℕ → Text → ℕ → Exec (AuthDb S) (Unit {0})
  reset_of w token password user_id = do
    raise_if (not (is_strong password)) (invalid "Password does not meet requirements")
    owner ← gets (user_by user_id)
    user ← or_raise owner (not_found_error "User not found")
    modify (write_password redis hashing w token user_id password)

  reset_of-Simulates :
      (w : World) (token : ℕ) (password : Text) (user : ℕ)
      → Simulates (λ _. closed_all user) (reset_of w token password user)
  unfolding reset_of
  reset_of-Simulates w token password user =
      search (Simulates-bind, quiet_rules, write_password-Simulates) depth 20

  reset_for-Simulates :
      (found : Option ℕ) (e : Error) (w : World) (token : ℕ) (password : Text)
      → Simulates (λ _. reset_change found) (or_raise found e >>= reset_of w token password)
  reset_for-Simulates none e w token password = record { at = λ db t. refl }
  reset_for-Simulates (some user) e w token password = record {
    at = λ db t. (reset_of-Simulates w token password user).at db t;
  }

  pub reset_password-granted :
      (w : World) (token : ℕ) (password : Text) (db : AuthDb S) (t : ℕ)
      → granted t (reset_password redis hashing w token password db).1
        ≡ apply
            (on_ok
              (λ _. reset_change (user_in (cached redis w (reset_key token) db)))
              (reset_password redis hashing w token password db).0)
            t
            (granted t db)
  unfolding reset_password reset_of
  reset_password-granted w token password db t =
      (reset_for-Simulates (user_in (cached redis w (reset_key token) db)) _ w token password).at db
        t
