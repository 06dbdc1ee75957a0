-- ===== src/Auth/Kyc.antt =====
-- verifyKyc of src/modules/auth/services/auth.service.ts. A number that the request leaves out keeps
-- its column; the TIN is left out.
use sohcahtoa_api.Prelude.{ℕ, ◌==◌, Bool, not, ◌&&◌, Option, or_option, any, Text}
use sohcahtoa_api.Errors.{not_found_error, prisma, record_not_found, unique_violation}
use sohcahtoa_api.Exec.{Exec, gets, modify, raise_if, or_raise, ◌>>=◌, ◌>>◌}
use sohcahtoa_api.Table.{find_unique, modify_unique}
use sohcahtoa_api.Cbn.Middleware.{KycStatus}
use sohcahtoa_api.Auth.Rows.{UserKyc, AuthDb}
use sohcahtoa_api.Auth.Tables.{user_by, same_number}

abbrev initiated : Option Text → Option Text → UserKyc → UserKyc
initiated bvn passport k = record k {
  status = KycStatus.pending_verification;
  bvn = or_option bvn k.bvn;
  passport_number = or_option passport k.passport_number;
}

module _ {S : Type 0} where
  -- another row has the BVN, which is unique
  abbrev is_taken : ℕ → Option Text → AuthDb S → Bool
  is_taken user bvn db = any (λ k. not (k.user_id == user) && same_number bvn k.bvn) db.kycs

  abbrev pub initiate : ℕ → Option Text → Option Text → AuthDb S → AuthDb S
  initiate user bvn passport db = record db {
    kycs = modify_unique (λ k. k.user_id) user (initiated bvn passport) db.kycs;
  }

  unfoldable pub verify_kyc : ℕ → Option Text → Option Text → Exec (AuthDb S) (Unit {0})
  verify_kyc user bvn passport = do
    owner ← gets (user_by user)
    u ← or_raise owner (not_found_error "User not found")
    row ← gets (λ db. find_unique (λ k. k.user_id) user db.kycs)
    k ← or_raise row (prisma record_not_found)
    taken ← gets (is_taken user bvn)
    raise_if taken (prisma unique_violation)
    modify (initiate user bvn passport)
