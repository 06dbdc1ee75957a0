-- ===== src/Documents/Checks.antt =====
-- The checks of src/modules/documents/services/verification.service.ts, by type of document.
use sohcahtoa_api.Prelude.{
  ℕ, ltb, String, Bool, true, ◌&&◌, Option, none, some, List, [], ◌∷◌, if◌then◌else◌,
}
use sohcahtoa_api.Admin.Rows.{VerificationStatus}
use sohcahtoa_api.Documents.Rows.{VerificationType}

pub record ApiData : Type 0 where
  pub valid : Bool
  pub verified : Bool
  pub confidence_score : ℕ
  pub flags : List String

-- callExternalAPI: the simulated answer, whatever is asked; none stands for a call that throws
abbrev pub call_external_api : Option ApiData
call_external_api =
    some (record { valid = true; verified = true; confidence_score = 85; flags = [] })

pub record Check : Type 0 where
  pub status : VerificationStatus
  pub provider : String
  pub confidence_score : ℕ
  pub flags : List String

abbrev manual : String → ℕ → List String → Check
manual provider score flags = record {
  status = VerificationStatus.requires_manual_review;
  provider = provider;
  confidence_score = score;
  flags = flags;
}

abbrev api_error : String → Check
api_error provider = manual provider 0 ("API_ERROR" ∷ [])

abbrev pub judged : Bool → VerificationStatus → VerificationStatus
judged holds otherwise = if holds then VerificationStatus.verified else otherwise

unfoldable pub verify_passport : Option ApiData → Check
verify_passport none = api_error "NIGERIAN_IMMIGRATION"
verify_passport (some d) = record {
  status = judged (d.valid && ltb 70 d.confidence_score) VerificationStatus.requires_manual_review;
  provider = "NIGERIAN_IMMIGRATION";
  confidence_score = d.confidence_score;
  flags = d.flags;
}

unfoldable pub verify_bvn : Option ApiData → Check
verify_bvn none = api_error "CBN_BVN"
verify_bvn (some d) = record {
  status = judged d.verified VerificationStatus.failed;
  provider = "CBN_BVN";
  confidence_score = 100;
  flags = [];
}

unfoldable pub verify_tin : Option ApiData → Check
verify_tin none = api_error "FIRS_TIN"
verify_tin (some d) = record {
  status = judged d.valid VerificationStatus.failed;
  provider = "FIRS_TIN";
  confidence_score = 100;
  flags = [];
}

unfoldable pub verify_visa : Option ApiData → Check
verify_visa none = api_error "VISA_VERIFY"
verify_visa (some d) = record {
  status = judged d.valid VerificationStatus.requires_manual_review;
  provider = "VISA_VERIFY";
  confidence_score = d.confidence_score;
  flags = d.flags;
}

abbrev pub basic_document_check : Check
basic_document_check = manual "INTERNAL" 50 ("MANUAL_REVIEW_REQUIRED" ∷ [])

-- the switch on the type
unfoldable pub check_document : VerificationType → Check
unfolding verify_passport verify_bvn verify_tin verify_visa
check_document VerificationType.passport = verify_passport call_external_api
check_document VerificationType.bvn = verify_bvn call_external_api
check_document VerificationType.tin = verify_tin call_external_api
check_document VerificationType.visa = verify_visa call_external_api
check_document VerificationType.other_type = basic_document_check
