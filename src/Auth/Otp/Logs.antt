-- ===== src/Auth/Otp/Logs.antt =====
-- The rows of one-time passwords that can still be used, and what validateOtp of
-- src/modules/auth/services/auth.service.ts does with them.
use sohcahtoa_api.Prelude.{
  ℕ, ◌≤◌, ◌==◌, ltb, Bool, true, false, ◌&&◌, Option, none, some, List, [], ◌∷◌, Text, find, filter,
  length, ◌≡◌, refl, sym, ap, ◌∙◌, inl, inr, Bool-cases, Option-cases, arith, ==_refl,
}
use sohcahtoa_api.Errors.{ok}
use sohcahtoa_api.Exec.{result, after}
use sohcahtoa_api.Table.{modify_where, modify_unique}
use sohcahtoa_api.Auth.Rows.{OtpPurpose, OtpLog, World, AuthDb}
use sohcahtoa_api.Auth.Otp.{used, is_open, validate_log, accept_log}

module _ (email otp : Text) (purpose : OtpPurpose) where
  abbrev pub open_logs : List OtpLog → ℕ
  open_logs logs = length (filter (is_open email otp purpose) logs)

  open-used : (l : OtpLog) → is_open email otp purpose (used l) ≡ false
  open-used l = ground arith

  find-none :
      (test : OtpLog → Bool) (logs : List OtpLog)
      → open_logs logs ≡ 0
      → find (λ l. is_open email otp purpose l && test l) logs ≡ none
  find-none test [] h = refl
  find-none test (l ∷ ls) h = elim (Bool-cases (is_open email otp purpose l)) [
    | inl usable ↦ absurd (ground arith)
    | inr shut ↦ rw shut (find-none test ls (ground arith))
  ]

  open_logs-modify_where :
      (test : OtpLog → Bool) (logs : List OtpLog)
      → open_logs (modify_where test used logs) ≤ open_logs logs
  unfolding modify_where
  open_logs-modify_where test [] = omega arith
  open_logs-modify_where test (l ∷ ls) =
      let rest = open_logs-modify_where test ls in
      let spent = open-used l in
      elim (Bool-cases (test l)) [
        | inl here ↦ rw (here, spent) (ground arith)
        | inr away ↦ rw away (ground arith)
      ]

  pub open_logs-mark_used :
      (logs : List OtpLog) → open_logs (modify_where (is_open email otp purpose) used logs) ≡ 0
  unfolding modify_where
  open_logs-mark_used [] = refl
  open_logs-mark_used (l ∷ ls) =
      let rest = open_logs-mark_used ls in
      elim (Bool-cases (is_open email otp purpose l)) [
        | inl usable ↦ rw (usable, open-used l) rest
        | inr shut ↦ rw (shut, shut) rest
      ]

  open_logs-found :
      (test : OtpLog → Bool) (logs : List OtpLog) (l : OtpLog)
      → find (λ l. is_open email otp purpose l && test l) logs ≡ some l
      → open_logs logs ≤ 1
      → open_logs (modify_where (λ x. x.id == l.id) used logs) ≡ 0
  unfolding modify_where
  open_logs-found test [] l found few = absurd (ground arith)
  open_logs-found test (x ∷ xs) l found few = elim (Bool-cases (is_open email otp purpose x)) [
    | inl usable ↦
        let rest : open_logs xs ≡ 0 = ground arith in
        let none_later = find-none test xs rest in
        let fewer = open_logs-modify_where (λ y. y.id == l.id) xs in
        let spent = open-used x in
        elim (Bool-cases (test x)) [
          | inl here ↦
              let same : x ≡ l = ground arith in
              let same_id : (x.id == l.id) ≡ true =
                ap (λ y. x.id == y.id) (sym same) ∙ ==_refl x.id in
              rw (same_id, spent) (omega arith)
          | inr away ↦ absurd (ground arith)
        ]
    | inr shut ↦
        let later : find (λ l. is_open email otp purpose l && test l) xs ≡ some l = ground arith in
        let rest = open_logs-found test xs l later (ground arith) in
        let spent = open-used x in
        elim (Bool-cases (x.id == l.id)) [
          | inl here ↦ rw (here, spent) rest
          | inr away ↦ rw (away, shut) rest
        ]
  ]

module _ {S : Type 0} (w : World) (email otp : Text) (purpose : OtpPurpose) (db : AuthDb S) where
  abbrev usable_log : Option OtpLog
  usable_log = find (λ l. is_open email otp purpose l && ltb w.now l.expires_at) db.otp_logs

  pub logged :
      (found : Option OtpLog)
      → usable_log ≡ found
      → validate_log w email otp purpose db ≡ accept_log found email otp purpose db
  unfolding validate_log
  logged found e = ap (λ o. accept_log o email otp purpose db) e

  pub refuse :
      open_logs email otp purpose db.otp_logs ≡ 0
      → result (validate_log w email otp purpose) db ≡ ok false
  refuse none_open =
      ap (λ p. p.0)
        (logged none
          (find-none email otp purpose (λ l. ltb w.now l.expires_at) db.otp_logs none_open))

  pub spend :
      result (validate_log w email otp purpose) db ≡ ok true
      → open_logs email otp purpose db.otp_logs ≤ 1
      → (open_logs email otp purpose (after (validate_log w email otp purpose) db).otp_logs ≡ 0)
        × ((after (validate_log w email otp purpose) db).cache ≡ db.cache)
  unfolding modify_where modify_unique
  spend valid few = elim (Option-cases usable_log) [
    | inl missing ↦ absurd (
        let no : ok false ≡ ok true = sym (ap (λ p. p.0) (logged none missing)) ∙ valid in
        ground arith)
    | inr (l, found) ↦
        let left = logged (some l) found in
        (
          ap (λ p. open_logs email otp purpose p.1.otp_logs) left
              ∙ open_logs-found email otp purpose (λ l. ltb w.now l.expires_at) db.otp_logs l found
                  few,
          ap (λ p. p.1.cache) left,
        )
  ]
