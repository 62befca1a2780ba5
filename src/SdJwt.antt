-- ===== src/SdJwt.antt =====
-- crates/ewqwe-digital-credential/src/sd_jwt_verification.rs: what a presentation claims, and whose
-- signatures it carries.
pub mod Decode
pub mod Keys
pub mod Verify
pub mod Nonce
pub mod Forged
pub mod Origin
pub mod Tests
use ewqwe_identity.Prelude.{
  String, ◌<>◌, Bool, true, false, not, ◌&&◌, ◌==◌, Option, some, none, List, [], ◌∷◌,
}
use ewqwe_identity.Prelude.Text.{count_char, split}
use ewqwe_identity.Json.{Fields}
use text.Mathlib.Text.{starts_with}

pub record DecodedSdJwt : Type 0 where
  pub vct : String
  pub claims : Fields
  pub issuer : String
  pub issued_at : Option String
  pub expires_at : Option String
  pub nonce : Option String

pub record SigVerificationResult : Type 0 where
  pub issuer_sig_valid : Bool
  pub issuer_trusted : Bool
  pub kb_sig_valid : Bool
  pub errors : List String
  pub skipped : Bool

-- `SigVerificationResult::skipped`
unfoldable pub skipped_result : String → SigVerificationResult
skipped_result reason = record {
  issuer_sig_valid = false;
  issuer_trusted = false;
  kb_sig_valid = false;
  errors = reason ∷ [];
  skipped = true;
}

-- A part that is a whole JWT: two dots, and "eyJ" in front.
unfoldable pub is_kb_jwt : String → Bool
unfolding count_char
is_kb_jwt part = (count_char b'.' part == 2) && starts_with part "eyJ"
