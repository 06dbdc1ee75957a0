-- ===== src/Auth/Passwords/Reset.antt =====
-- What resetPassword of src/modules/auth/services/auth.service.ts promises.
use sohcahtoa_api.Prelude.{
  ℕ, ◌==◌, ==_refl, Bool, true, false, Option, none, some, [], ◌∷◌, Text, ◌≡◌, refl, sym, subst,
  ◌∙◌, ap, Option-cases, inl, inr,
}
use sohcahtoa_api.Errors.{Error, ok, err, invalid}
use sohcahtoa_api.Exec.{result, after}
use sohcahtoa_api.Table.{find_unique}
use sohcahtoa_api.Table.Laws.{
  find_unique-modify_unique, find_unique-append_none, key-find_unique, map_if,
}
use sohcahtoa_api.Validators.{is_strong}
use sohcahtoa_api.Auth.Rows.{User, UserCredential, reset_key, key_eq, Redis, Hashing, World, AuthDb}
use sohcahtoa_api.Auth.Tables.{user_by, credential_of, upsert_credential, close_sessions}
use sohcahtoa_api.Auth.Otp.{cached, drop}
use sohcahtoa_api.Auth.Passwords.{user_in, write_password, reset_password}

abbrev pub token_error : Error
token_error = invalid "Invalid or expired reset token. Please restart the forgot password flow."

-- whether a password fits the stored one
abbrev pub fits : Hashing → Text → Option UserCredential → Bool
fits hashing password none = false
fits hashing password (some c) = hashing.compare password c.password_hash

abbrev new_row : ℕ → ℕ → Text → UserCredential
new_row id user hash = record {
  id = id;
  user_id = user;
  password_hash = hash;
  failed_attempts = 0;
  locked_until = none;
}

single : (row : UserCredential) → find_unique (λ c. c.user_id) row.user_id (row ∷ []) ≡ some row
unfolding find_unique
single row = rw (==_refl row.user_id)

module _ {S : Type 0} (redis : Redis S) (hashing : Hashing) where
  fits-upsert :
      (id user salt : ℕ) (password : Text) (db : AuthDb S)
      → fits hashing password
          (credential_of user (upsert_credential id user (hashing.hash salt password) db))
        ≡ true
  unfolding upsert_credential
  fits-upsert id user salt password db = elim (Option-cases (credential_of user db)) [
    | inl missing ↦ rw missing (
        ap (fits hashing password) (
          find_unique-append_none (λ c. c.user_id) user db.credentials _ missing
          ∙ single (new_row id user (hashing.hash salt password)))
        ∙ hashing.compare-hash salt password)
    | inr (c, found) ↦
        let same : c.user_id ≡ user =
          key-find_unique (λ c. c.user_id) user db.credentials c found in
        let f : UserCredential → UserCredential =
          λ x. record x { password_hash = hashing.hash salt password } in
        rw found (
          ap (fits hashing password) (
            find_unique-modify_unique (λ c. c.user_id) f (λ c. refl) c.user_id user db.credentials
            ∙ ap (λ o. map_if (c.user_id == user) f o) found
            ∙ ap (λ b. map_if b f (some c)) (ap (λ k. k == user) same ∙ ==_refl user))
          ∙ hashing.compare-hash salt password)
  ]

  upsert-cache :
      (id user : ℕ) (hash : Text) (db : AuthDb S)
      → (upsert_credential id user hash db).cache ≡ db.cache
  unfolding upsert_credential
  upsert-cache id user hash db = elim (Option-cases (credential_of user db)) [
    | inl missing ↦ rw missing
    | inr (c, found) ↦ rw found
  ]

  key_gone :
      (now token : ℕ) (s : S)
      → redis.get now (reset_key token) (redis.del (reset_key token) s) ≡ none
  unfolding key_eq
  key_gone now token s =
      redis.get-del now (reset_key token) (reset_key token) s ∙ rw (==_refl token)

  reset_done :
      (w : World) (token user : ℕ) (password : Text) (u : User) (db : AuthDb S)
      → user_in (cached redis w (reset_key token) db) ≡ some user
      → is_strong password ≡ true
      → user_by user db ≡ some u
      → reset_password redis hashing w token password db
        ≡ (ok tt, write_password redis hashing w token user password db)
  unfolding reset_password
  reset_done w token user password u db issued strong found = rw (issued, strong, found)

  reset_refused :
      (w : World) (token : ℕ) (password : Text) (db : AuthDb S)
      → user_in (cached redis w (reset_key token) db) ≡ none
      → reset_password redis hashing w token password db ≡ (err token_error, db)
  unfolding reset_password
  reset_refused w token password db unknown = rw unknown

  -- A reset by a token that was issued for a user who is there, with a strong password, succeeds: the
  -- new password fits the user's stored one, and the token is refused from then on, at any time and
  -- with any password, and a refused call writes nothing.
  pub reset_password_lem :
      (w w' : World) (token user : ℕ) (password again : Text) (u : User) (db : AuthDb S)
      → user_in (cached redis w (reset_key token) db) ≡ some user
      → is_strong password ≡ true
      → user_by user db ≡ some u
      → let left = after (reset_password redis hashing w token password) db in
        (result (reset_password redis hashing w token password) db ≡ ok tt)
        × (fits hashing password (credential_of user left) ≡ true)
        × (reset_password redis hashing w' token again left ≡ (err token_error, left))
  unfolding write_password close_sessions
  reset_password_lem w w' token user password again u db issued strong found =
      let done = reset_done w token user password u db issued strong found in
      let left = write_password redis hashing w token user password db in
      (
        ap (λ p. p.0) done,
        ap (λ p. fits hashing password (credential_of user p.1)) done
            ∙ fits-upsert w.fresh_id user w.salt password (drop redis (reset_key token) db),
        subst (λ p. reset_password redis hashing w' token again p.1 ≡ (err token_error, p.1))
            (sym done)
            (reset_refused w' token again left (
              ap (λ c. user_in (redis.get w'.now (reset_key token) c))
                (upsert-cache w.fresh_id user _ (drop redis (reset_key token) db))
              ∙ ap user_in (key_gone w'.now token db.cache))),
      )
