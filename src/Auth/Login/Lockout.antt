-- ===== src/Auth/Login/Lockout.antt =====
-- What login of src/modules/auth/services/auth.service.ts does after wrong passwords.
use sohcahtoa_api.Prelude.{
  ℕ, suc, ◌+◌, ◌==◌, ◌≤◌, ◌<◌, leb, Bool, true, false, Option, none, some, List, [], ◌∷◌, Text,
  length, ◌≡◌, refl, sym, subst, ap, ◌∙◌, ◌⊎◌, inl, inr, Bool-cases, if◌then◌else◌, arith, All,
  ==_refl,
}
use sohcahtoa_api.Errors.{Error, err}
use sohcahtoa_api.Exec.{after}
use sohcahtoa_api.Table.Laws.{find_unique-modify_unique, map_if}
use sohcahtoa_api.Auth.Rows.{User, UserCredential, Hashing, World, AuthDb}
use sohcahtoa_api.Auth.Tables.{unauthorized_error, user_by_email, credential_of, set_credential}
use sohcahtoa_api.Auth.Login.{
  max_login_attempts, lock_duration, is_locked, failed, judge_password, login,
}

abbrev pub locked_error : Error
locked_error = unauthorized_error "Account is temporarily locked. Please try again later."

module _ {S : Type 0} (hashing : Hashing) (email : Text) where
  -- an account that can be used, as the database has it
  pub record HasAccount (u : User) (c : UserCredential) (db : AuthDb S) : Type 0 where
    pub found : user_by_email email db ≡ some u
    pub active : u.is_active ≡ true
    pub credentials : credential_of u.id db ≡ some c

  module _ (w : World) (password : Text) (u : User) (c : UserCredential) (db : AuthDb S)
      (h : HasAccount u c db) where
    login-locked :
        is_locked w.now c ≡ true → login hashing w email password db ≡ (err locked_error, db)
    unfolding login
    login-locked locked = rw (h.found, h.credentials, locked)

    login-judged :
        is_locked w.now c ≡ false
        → login hashing w email password db
          ≡ judge_password (hashing.compare password c.password_hash) w u db
    unfolding login
    login-judged free = rw (h.found, h.credentials, free, h.active)

  -- the database after some attempts to log in
  pub run_logins : List (World × Text) → AuthDb S → AuthDb S
  run_logins [] db = db
  run_logins ((w, password) ∷ rest) db = run_logins rest (after (login hashing w email password) db)

abbrev reaches : ℕ → Option ℕ → Bool
reaches end none = false
reaches end (some t) = leb end t

-- after some wrong passwords since the time `start`
abbrev Counted : ℕ → ℕ → UserCredential → Type 0
Counted start n c =
    ((n < max_login_attempts) × (c.failed_attempts ≡ n) × (c.locked_until ≡ none))
    ⊎ ((max_login_attempts ≤ n) × (reaches (start + lock_duration) c.locked_until ≡ true))

-- times in the half hour from `start`
abbrev pub Within : ℕ → World → Type 0
Within start w = (start ≤ w.now) × (w.now < start + lock_duration)

Counted-locked :
    (start n : ℕ) (c : UserCredential) (w : World)
    → Counted start n c
    → Within start w
    → is_locked w.now c ≡ leb max_login_attempts n
Counted-locked start n c w (inl few) within = rw few.2 (ground arith)
Counted-locked start n c w (inr many) within = ground arith

Counted-failed :
    (start n : ℕ) (c : UserCredential) (w : World)
    → Counted start n c
    → Within start w
    → is_locked w.now c ≡ false
    → Counted start (suc n) (failed w.now c)
unfolding failed
Counted-failed start n c w (inl few) within free =
    elim (Bool-cases (leb max_login_attempts (c.failed_attempts + 1))) [
      | inl last ↦ inr (ground arith, rw last (ground arith))
      | inr more ↦ inl (ground arith, ground arith, rw more few.2)
    ]
Counted-failed start n c w (inr many) within free = absurd (ground arith)

Counted-suc :
    (start n : ℕ) (c : UserCredential) (w : World)
    → Counted start n c
    → Within start w
    → is_locked w.now c ≡ true
    → Counted start (suc n) c
Counted-suc start n c w (inl few) within locked =
    absurd (let no : is_locked w.now c ≡ false = rw few.2 in ground arith)
Counted-suc start n c w (inr many) within locked = inr (omega arith, many.1)

-- an attempt within the half hour with a password that does not fit
abbrev pub Wrong : Hashing → Text → ℕ → World × Text → Type 0
Wrong hashing hash start p = Within start p.0 × (hashing.compare p.1 hash ≡ false)

failed_keeps : (now : ℕ) (c : UserCredential) → (failed now c).user_id ≡ c.user_id
unfolding failed
failed_keeps now c = refl

failed_hash : (now : ℕ) (c : UserCredential) → (failed now c).password_hash ≡ c.password_hash
unfolding failed
failed_hash now c = refl

module _ {S : Type 0} (hashing : Hashing) (email : Text) (u : User) (hash : Text) (start : ℕ) where
  HasAccount-failed :
      (now : ℕ) (c : UserCredential) (db : AuthDb S)
      → HasAccount hashing email u c db
      → HasAccount hashing email u (failed now c) (set_credential u.id (failed now) db)
  HasAccount-failed now c db h = record {
    found = h.found;
    active = h.active;
    credentials =
        find_unique-modify_unique (λ c. c.user_id) (failed now) (failed_keeps now) u.id u.id
          db.credentials
        ∙ ap (λ o. map_if (u.id == u.id) (failed now) o) h.credentials
        ∙ ap (λ b. map_if b (failed now) (some c)) (==_refl u.id);
  }

  -- the account, with as many wrong passwords counted
  abbrev Tracked : ℕ → AuthDb S → Type 0
  Tracked n db =
      (c : UserCredential) × HasAccount hashing email u c db
      × Counted start n c
      × (c.password_hash ≡ hash)

  counted_try :
      (n : ℕ) (w : World) (password : Text) (db : AuthDb S)
      → Wrong hashing hash start (w, password)
      → Tracked n db
      → Tracked (suc n) (after (login hashing w email password) db)
  counted_try n w password db wrong (c, h, counted, same) = elim (Bool-cases (is_locked w.now c)) [
    | inl locked ↦
        subst (λ p. Tracked (suc n) p.1)
          (sym (login-locked hashing email w password u c db h locked))
          (c, h, Counted-suc start n c w counted wrong.0 locked, same)
    | inr free ↦
        let refused : hashing.compare password c.password_hash ≡ false =
          ap (λ x. hashing.compare password x) same ∙ wrong.1 in
        subst (λ p. Tracked (suc n) p.1)
          (sym (
            login-judged hashing email w password u c db h free
            ∙ ap (λ b. judge_password b w u db) refused))
          (
            failed w.now c,
            HasAccount-failed w.now c db h,
            Counted-failed start n c w counted wrong.0 free,
            failed_hash w.now c ∙ same,
          )
  ]

  counted_tries :
      (n : ℕ) (tries : List (World × Text)) (db : AuthDb S)
      → All (Wrong hashing hash start) tries
      → Tracked n db
      → Tracked (n + length tries) (run_logins hashing email tries db)
  unfolding run_logins
  counted_tries n [] db wrong t = subst (λ k. Tracked k db) (omega arith) t
  counted_tries n ((w, password) ∷ rest) db wrong t =
      subst (λ k. Tracked k (run_logins hashing email ((w, password) ∷ rest) db)) (omega arith)
        (counted_tries (suc n) rest (after (login hashing w email password) db) wrong.1
          (counted_try n w password db wrong.0 t))

  -- From an active account without failed attempts and without a lock: after any number of wrong
  -- passwords within half an hour, a further login within it is refused as locked, whatever the
  -- password, and writes nothing, if there were five or more; if there were fewer, the password
  -- decides, as it would have at first.
  pub login_lockout :
      (c : UserCredential) (db : AuthDb S)
      → HasAccount hashing email u c db
      → c.failed_attempts ≡ 0
      → c.locked_until ≡ none
      → c.password_hash ≡ hash
      → (tries : List (World × Text)) → All (Wrong hashing hash start) tries
      → (w : World) (password : Text) → Within start w
      → let left = run_logins hashing email tries db in
        login hashing w email password left ≡ (
          if leb 5 (length tries)
          then (err locked_error, left)
          else judge_password (hashing.compare password hash) w u left)
  login_lockout c db h none_failed unlocked same tries wrong w password within =
      let left = run_logins hashing email tries db in
      let t =
        counted_tries 0 tries db wrong (c, h, inl (omega arith, none_failed, unlocked), same) in
      let all_tries : 0 + length tries ≡ length tries = omega arith in
      let locked =
        Counted-locked start (0 + length tries) t.0 w t.2 within ∙ ap (λ n. leb 5 n) all_tries in
      elim (Bool-cases (leb 5 (length tries))) [
        | inl many ↦
            login-locked hashing email w password u t.0 left t.1 (locked ∙ many) ∙ sym (rw many)
        | inr few ↦
            login-judged hashing email w password u t.0 left t.1 (locked ∙ few)
            ∙ ap (λ x. judge_password (hashing.compare password x) w u left) t.3
            ∙ sym (rw few)
      ]
