-- ===== src/Credential.antt =====
-- crates/ewqwe-digital-credential/src/error.rs
use ewqwe_identity.Prelude.{String, ◌<>◌, Option}
use ewqwe_identity.Prelude.Result.{Result, map_err, ok_or}

pub data CredentialError : Type 0 where
  open_ssl jwt cbor build invalid_presentation time serde : String → CredentialError

-- The messages that thiserror writes.
unfoldable pub show_error : CredentialError → String
show_error (open_ssl e) = "OpenSSL error: " <> e
show_error (jwt e) = "JWT error: " <> e
show_error (cbor e) = "CBOR error: " <> e
show_error (build e) = "Credential building error: " <> e
show_error (invalid_presentation e) = "Invalid presentation: " <> e
show_error (time e) = "Time error: " <> e
show_error (serde e) = "Serde error: " <> e

abbrev pub CredentialResult : Type 0 → Type 0
CredentialResult A = Result CredentialError A

-- `ok_or_else(|| CredentialError::InvalidPresentation(…))`
abbrev pub need {ℓ} : {A : Type ℓ} → Option A → String → Result CredentialError A
need found what = ok_or found (invalid_presentation what)

-- `map_err(|e| CredentialError::InvalidPresentation(format!("{what}: {e}")))`
abbrev pub because {ℓ} : {A : Type ℓ} → String → Result String A → Result CredentialError A
because what r = map_err (λ e. invalid_presentation (what <> ": " <> e)) r
