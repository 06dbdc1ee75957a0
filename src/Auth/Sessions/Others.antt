-- ===== src/Auth/Sessions/Others.antt =====
-- The methods about passwords and agents that leave the table of sessions alone
-- (src/modules/auth/services/auth.service.ts).
use sohcahtoa_api.Prelude.{ℕ, Option, none, some, refl, Text}
use sohcahtoa_api.Exec.{modify}
use sohcahtoa_api.Auth.Rows.{User, Agent, CacheKey, CacheValue, AuthEvent, Redis, Hashing, World}
use sohcahtoa_api.Auth.Tables.{publish}
use sohcahtoa_api.Auth.Otp.{keep, drop}
use sohcahtoa_api.Auth.Passwords.{forgot, forgot_password, verify_reset_otp, set_agent_password}
use sohcahtoa_api.Auth.Kyc.{verify_kyc, initiate}
use sohcahtoa_api.Auth.Agents.{
  create_agent_user, agent_account, prompt, login_agent, create_agent_password, sync_credential,
}
use sohcahtoa_api.Auth.Sessions.Quiet.{
  Quiet, Quiet-pure, quiet_rules, send_otp-Quiet, validate_otp-Quiet, create_account-Quiet,
  upsert_credential-sessions,
}

module _ {S : Type 0} where
  pub publish-Quiet : (e : AuthEvent) → Quiet (modify (publish {S = S} e))
  publish-Quiet e = record { at = λ db. refl }

  pub set_agent_password-Quiet :
      (id : ℕ) (hash : Text) → Quiet (modify (set_agent_password {S = S} id hash))
  set_agent_password-Quiet id hash = record { at = λ db. refl }

  create_agent_user-Quiet :
      (password : Option Text) (w : World) (a : Agent)
      → Quiet (create_agent_user {S = S} password w a)
  create_agent_user-Quiet none w a = record { at = λ db. refl }
  create_agent_user-Quiet (some hash) w a = create_account-Quiet _ _ none

  pub agent_account-Quiet :
      (existing : Option User) (w : World) (a : Agent) → Quiet (agent_account {S = S} existing w a)
  agent_account-Quiet none w a = create_agent_user-Quiet a.password w a
  agent_account-Quiet (some u) w a = Quiet-pure u

  initiate-Quiet :
      (user : ℕ) (bvn passport : Option Text) → Quiet (modify (initiate {S = S} user bvn passport))
  initiate-Quiet user bvn passport = record { at = λ db. refl }

  pub verify_kyc-Quiet :
      (user : ℕ) (bvn passport : Option Text) → Quiet (verify_kyc {S = S} user bvn passport)
  unfolding verify_kyc
  verify_kyc-Quiet user bvn passport = search (quiet_rules, initiate-Quiet) depth 24

module _ {S : Type 0} (redis : Redis S) where
  pub keep-Quiet :
      (w : World) (key : CacheKey) (seconds : ℕ) (value : CacheValue)
      → Quiet (modify (keep redis w key seconds value))
  keep-Quiet w key seconds value = record { at = λ db. refl }

  pub drop-Quiet : (key : CacheKey) → Quiet (modify (drop redis key))
  drop-Quiet key = record { at = λ db. refl }

  forgot-Quiet : (user : Option User) (w : World) (email : Text) → Quiet (forgot redis user w email)
  forgot-Quiet none w email = Quiet-pure none
  forgot-Quiet (some u) w email = search (quiet_rules, send_otp-Quiet, publish-Quiet)

  pub forgot_password-Quiet : (w : World) (email : Text) → Quiet (forgot_password redis w email)
  unfolding forgot_password
  forgot_password-Quiet w email = search (quiet_rules, forgot-Quiet)

  pub verify_reset_otp-Quiet :
      (w : World) (email otp : Text) → Quiet (verify_reset_otp redis w email otp)
  unfolding verify_reset_otp
  verify_reset_otp-Quiet w email otp = search (quiet_rules, validate_otp-Quiet, keep-Quiet) depth 24

  prompt-Quiet :
      (set : Option Text) (hashing : Hashing) (w : World) (a : Agent) (password : Text)
      → Quiet (prompt redis set hashing w a password)
  prompt-Quiet none hashing w a password = search (quiet_rules, send_otp-Quiet)
  prompt-Quiet (some hash) hashing w a password = search (quiet_rules, send_otp-Quiet)

  pub login_agent-Quiet :
      (hashing : Hashing) (w : World) (email password : Text)
      → Quiet (login_agent redis hashing w email password)
  unfolding login_agent
  login_agent-Quiet hashing w email password = search (quiet_rules, prompt-Quiet)

  sync_credential-Quiet :
      (user : Option User) (w : World) (hash : Text)
      → Quiet (modify (sync_credential redis user w hash))
  sync_credential-Quiet none w hash = record { at = λ db. refl }
  sync_credential-Quiet (some u) w hash = record {
    at = λ db. upsert_credential-sessions w.fresh_id u.id hash db;
  }

  pub create_agent_password-Quiet :
      (hashing : Hashing) (w : World) (email password confirmation otp : Text)
      → Quiet (create_agent_password redis hashing w email password confirmation otp)
  unfolding create_agent_password
  create_agent_password-Quiet hashing w email password confirmation otp =
      search (quiet_rules, validate_otp-Quiet, set_agent_password-Quiet, sync_credential-Quiet)
        depth 24
