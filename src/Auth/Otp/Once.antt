-- ===== src/Auth/Otp/Once.antt =====
-- A one-time password is accepted once (validateOtp of src/modules/auth/services/auth.service.ts).
use sohcahtoa_api.Prelude.{
  ℕ, ◌≤◌, Bool, true, false, none, some, is_some, [], ◌∷◌, Text, text_eq, text_eq_refl, any, ◌≡◌,
  refl, sym, subst, ap, ◌∙◌, inl, inr, Bool-cases, Option-cases, arith, ==_refl,
}
use sohcahtoa_api.Errors.{Result, ok, err}
use sohcahtoa_api.Exec.{result, after, continue, pure}
use sohcahtoa_api.Auth.Rows.{
  OtpPurpose, CacheKey, contact_key, code_key, Redis, World, AuthDb, key_eq,
}
use sohcahtoa_api.Auth.Otp.{
  validate_log, cached, accept_code, validate_code, otp_in, contact_in, matches, accept_contact,
  contact_or_log, validate_contact, validate_otp, mark_used, greet, verify_email, drop,
}
use sohcahtoa_api.Auth.Otp.Logs.{open_logs, open_logs-mark_used, refuse, spend}

module _ {S : Type 0} (email : Text) (d : AuthDb S) where
  verify_email-keeps :
      ((verify_email email d).1.cache ≡ d.cache) × ((verify_email email d).1.otp_logs ≡ d.otp_logs)
  unfolding verify_email
  verify_email-keeps = elim (Bool-cases (any (λ u. text_eq u.email email) d.users)) [
    | inl there ↦ (rw there, rw there)
    | inr missing ↦ (rw missing, rw missing)
  ]

  greet-keeps :
      (purpose : OtpPurpose)
      → ((greet purpose email d).1.cache ≡ d.cache)
        × ((greet purpose email d).1.otp_logs ≡ d.otp_logs)
  greet-keeps OtpPurpose.registration = verify_email-keeps
  greet-keeps OtpPurpose.login = (refl, refl)
  greet-keeps OtpPurpose.password_reset = (refl, refl)
  greet-keeps OtpPurpose.agent_set_password = (refl, refl)
  greet-keeps OtpPurpose.transaction_verification = (refl, refl)

module _ {S : Type 0} (redis : Redis S) (otp : Text) (purpose : OtpPurpose) where
  -- whether the cache vouches for the code
  abbrev pub vouches : World → Text → AuthDb S → Bool
  vouches w [] db = is_some (contact_in (cached redis w (code_key otp purpose) db))
  vouches w (c ∷ cs) db = matches (otp_in (cached redis w (contact_key (c ∷ cs) purpose) db)) otp

  -- what the code does where the cache does not vouch for it
  unvouched :
      (w : World) (email : Text) (db : AuthDb S)
      → vouches w email db ≡ false
      → validate_otp redis w email otp purpose db ≡ validate_log w email otp purpose db
  unfolding validate_otp validate_code validate_contact
  unvouched w [] db silent =
      elim (Option-cases (contact_in (cached redis w (code_key otp purpose) db))) [
        | inl missing ↦ ap (λ o. accept_code redis o w otp purpose db) missing
        | inr (e, found) ↦ absurd (ground arith)
      ]
  unvouched w (c ∷ cs) db silent = ap (λ b. contact_or_log redis b w (c ∷ cs) otp purpose db) silent

  -- the cache does not begin to vouch as time goes on
  vouches_later :
      (w w' : World) (email : Text) (db db' : AuthDb S)
      → w.now ≤ w'.now
      → db'.cache ≡ db.cache
      → vouches w email db ≡ false
      → vouches w' email db' ≡ false
  vouches_later w w' [] db db' later same silent =
      rw same (elim (redis.get_fades w.now w'.now (code_key otp purpose) db.cache later) [
        | inl gone ↦ rw gone
        | inr still ↦ rw still silent
      ])
  vouches_later w w' (c ∷ cs) db db' later same silent =
      rw same (elim (redis.get_fades w.now w'.now (contact_key (c ∷ cs) purpose) db.cache later) [
        | inl gone ↦ rw gone
        | inr still ↦ rw still silent
      ])

  key_eq_refl : (k : CacheKey) → key_eq k k ≡ true
  unfolding key_eq
  key_eq_refl (contact_key c p) = rw (text_eq_refl c) (==_refl _)
  key_eq_refl (code_key c p) = rw (text_eq_refl c) (==_refl _)
  key_eq_refl (CacheKey.reset_key t) = ==_refl t
  key_eq_refl (CacheKey.bvn_key t) = ==_refl t
  key_eq_refl (CacheKey.passport_key t) = ==_refl t

  gone : (now : ℕ) (k : CacheKey) (s : S) → redis.get now k (redis.del k s) ≡ none
  gone now k s = redis.get-del now k k s ∙ rw (key_eq_refl k)

  stays_gone :
      (now : ℕ) (k j : CacheKey) (s : S)
      → redis.get now j s ≡ none
      → redis.get now j (redis.del k s) ≡ none
  stays_gone now k j s missing = redis.get-del now k j s ∙ rw missing (ground arith)

  returned : (p : Result (Unit {0}) × AuthDb S) → (continue (λ _. pure true) p).1 ≡ p.1
  returned (ok u, d) = refl
  returned (err e, d) = refl

  accepted_code :
      (w w' : World) (e : Text) (db : AuthDb S)
      → let left = (accept_code redis (some e) w otp purpose db).1 in
        (vouches w' [] left ≡ false) × (open_logs [] otp purpose left.otp_logs ≡ 0)
  accepted_code w w' [] db = (
    rw (gone w'.now (code_key otp purpose) db.cache),
    open_logs-mark_used [] otp purpose db.otp_logs,
  )
  accepted_code w w' (c ∷ cs) db = (
    rw (
        stays_gone w'.now (contact_key (c ∷ cs) purpose) (code_key otp purpose) _
          (gone w'.now (code_key otp purpose) db.cache)),
    open_logs-mark_used [] otp purpose db.otp_logs,
  )

  accepted_contact :
      (w' : World) (c : ℕ) (cs : Text) (db : AuthDb S)
      → let left = (accept_contact redis (c ∷ cs) otp purpose db).1 in
        (vouches w' (c ∷ cs) left ≡ false) × (open_logs (c ∷ cs) otp purpose left.otp_logs ≡ 0)
  unfolding accept_contact
  accepted_contact w' c cs db =
      let d : AuthDb S =
        mark_used (c ∷ cs) otp purpose
          (drop redis (code_key otp purpose) (drop redis (contact_key (c ∷ cs) purpose) db)) in
      let kept = greet-keeps (c ∷ cs) d purpose in
      let same = returned (greet purpose (c ∷ cs) d) in
      (
        ap (λ x. vouches w' (c ∷ cs) x) same
            ∙ ap (λ x. matches (otp_in (redis.get w'.now (contact_key (c ∷ cs) purpose) x)) otp)
                kept.0
            ∙ rw (
                stays_gone w'.now (code_key otp purpose) (contact_key (c ∷ cs) purpose) _
                  (gone w'.now (contact_key (c ∷ cs) purpose) db.cache)),
        ap (λ x. open_logs (c ∷ cs) otp purpose x.otp_logs) same
            ∙ ap (λ x. open_logs (c ∷ cs) otp purpose x) kept.1
            ∙ open_logs-mark_used (c ∷ cs) otp purpose db.otp_logs,
      )

  vouched :
      (w w' : World) (email : Text) (db : AuthDb S)
      → vouches w email db ≡ true
      → let left = after (validate_otp redis w email otp purpose) db in
        (vouches w' email left ≡ false) × (open_logs email otp purpose left.otp_logs ≡ 0)
  unfolding validate_otp validate_code validate_contact
  vouched w w' [] db spoken =
      elim (Option-cases (contact_in (cached redis w (code_key otp purpose) db))) [
        | inl missing ↦ absurd (ground arith)
        | inr (e, found) ↦
            let here = sym (ap (λ o. (accept_code redis o w otp purpose db).1) found) in
            subst
              (λ left. (vouches w' [] left ≡ false) × (open_logs [] otp purpose left.otp_logs ≡ 0))
              here (accepted_code w w' e db)
      ]
  vouched w w' (c ∷ cs) db spoken =
      subst
        (λ left.
          (vouches w' (c ∷ cs) left ≡ false) × (open_logs (c ∷ cs) otp purpose left.otp_logs ≡ 0))
        (sym (ap (λ b. (contact_or_log redis b w (c ∷ cs) otp purpose db).1) spoken))
        (accepted_contact w' c cs db)

  refused :
      (w : World) (email : Text) (db : AuthDb S)
      → vouches w email db ≡ false
      → open_logs email otp purpose db.otp_logs ≡ 0
      → result (validate_otp redis w email otp purpose) db ≡ ok false
  refused w email db silent none_open =
      ap (λ p. p.0) (unvouched w email db silent) ∙ refuse w email otp purpose db none_open

  logged_spends :
      (w w' : World) (email : Text) (db : AuthDb S)
      → w.now ≤ w'.now
      → open_logs email otp purpose db.otp_logs ≤ 1
      → vouches w email db ≡ false
      → result (validate_otp redis w email otp purpose) db ≡ ok true
      → let left = after (validate_otp redis w email otp purpose) db in
        (vouches w' email left ≡ false) × (open_logs email otp purpose left.otp_logs ≡ 0)
  logged_spends w w' email db later few silent valid =
      let same = unvouched w email db silent in
      let spent = spend w email otp purpose db (sym (ap (λ p. p.0) same) ∙ valid) few in
      subst (λ p. (vouches w' email p.1 ≡ false) × (open_logs email otp purpose p.1.otp_logs ≡ 0))
        (sym same)
        (
          vouches_later w w' email db (validate_log w email otp purpose db).1 later spent.1 silent,
          spent.0,
        )

  -- A code that was accepted is refused when it is sent again, at any later time, if at most one
  -- unused row of the table had it: with the email as before, or without one as before.
  pub validate_otp_once :
      (w w' : World) (email : Text) (db : AuthDb S)
      → w.now ≤ w'.now
      → open_logs email otp purpose db.otp_logs ≤ 1
      → result (validate_otp redis w email otp purpose) db ≡ ok true
      → result
          (validate_otp redis w' email otp purpose)
          (after (validate_otp redis w email otp purpose) db)
        ≡ ok false
  validate_otp_once w w' email db later few valid =
      let left = after (validate_otp redis w email otp purpose) db in
      let spent : (vouches w' email left ≡ false)
          × (open_logs email otp purpose left.otp_logs ≡ 0) =
        elim (Bool-cases (vouches w email db)) [
          | inl spoken ↦ vouched w w' email db spoken
          | inr silent ↦ logged_spends w w' email db later few silent valid
        ] in
      refused w' email left spent.0 spent.1
