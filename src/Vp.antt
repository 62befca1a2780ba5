-- ===== src/Vp.antt =====
-- crates/ewqwe-openid4vp/src/verification.rs: what is decided about a presented VP token.
pub mod Law
pub mod Parse
pub mod Tests
use ewqwe_identity.Prelude.{
  ℕ, String, Bool, true, false, not, ◌&&◌, str_eq, Option, none, some, is_some, opt_map, List, [],
  ◌∷◌, ◌++◌, ◌<>◌, if◌then◌else◌,
}
use ewqwe_identity.Prelude.Int.{ℤ, ltb_ℤ}
use ewqwe_identity.Prelude.Result.{Result, ok, err, ◌>>=◌, ◌>>◌, map_err, ok_or}
use ewqwe_identity.Json.{Json, obj, end}
use ewqwe_identity.Types.{
  OpenId4vpResult, bad_request, decoding_error, ResponseMode, fragment, direct_post,
  direct_post_jwt, dc_api, dc_api_jwt,
}
use ewqwe_identity.Store.Spec.{Tx}
use ewqwe_identity.SdJwt.{SigVerificationResult, skipped_result}

pub record IssuerSigned : Type 0 where
  pub name_spaces : Option Json

pub record VpToken : Type 0 where
  pub doc_type : String
  pub namespace : String
  pub claims : Option Json
  pub issuer : Option String
  pub issued_at : Option String
  pub expires_at : Option String
  pub nonce : Option String
  pub raw_sd_jwt : Option String
  pub raw_mdoc : Option String
  pub issuer_signed : Option IssuerSigned

pub record VerificationResult : Type 0 where
  pub is_valid : Bool
  pub signature_valid : Bool
  pub not_expired : Bool
  pub issuer_trusted : Bool
  pub errors : List String
  pub warnings : List String

pub record MdocResult : Type 0 where
  pub not_expired : Bool
  pub issuer_trusted : Bool
  pub claims : Json
  pub doc_type : String
  pub namespace : String

-- Each check answers its flag and the errors that it pushes.
-- `parse_rfc3339` is chrono's reader, as an instant; a text that it refuses does not expire.
unfoldable pub expiry_check : (String → Option ℤ) → ℤ → Option String → Bool × List String
expiry_check parse_rfc3339 now none = (true, [])
expiry_check parse_rfc3339 now (some text) = elim (parse_rfc3339 text) [
  | none ↦ (true, [])
  | some exp ↦ if ltb_ℤ exp now then (false, "Credential has expired" ∷ []) else (true, [])
]

unfoldable pub issuer_check : SigVerificationResult → Option String → Bool × List String
issuer_check sig issuer =
    if not sig.skipped
    then (
      sig.issuer_trusted,
      if sig.issuer_trusted then [] else "Issuer certificate does not chain to a trusted CA" ∷ [],
    )
    else (is_some issuer, if is_some issuer then [] else "No issuer specified in credential" ∷ [])

unfoldable pub nonce_check : Option String → Option String → Bool × List String
nonce_check (some req) (some token) =
    if str_eq req token
    then (true, [])
    else (false, "Nonce mismatch: presentation nonce does not match server nonce" ∷ [])
nonce_check (some req) none = (true, [])
nonce_check none token = (true, [])

unfoldable pub signature_check : SigVerificationResult → Bool × List String
signature_check sig =
    if not sig.skipped
    then (
      sig.issuer_sig_valid && sig.kb_sig_valid,
      (if sig.issuer_sig_valid then [] else "Issuer JWT signature verification failed" ∷ [])
          ++ (if sig.kb_sig_valid then [] else "KB-JWT signature verification failed" ∷ [])
          ++ sig.errors,
    )
    else (true, [])

unfoldable pub verify_vp_token :
    (String → Option ℤ) → ℤ → VpToken → Option String → SigVerificationResult → VerificationResult
unfolding expiry_check issuer_check nonce_check signature_check
verify_vp_token parse_rfc3339 now vp_token server_nonce sig =
    let expiry = expiry_check parse_rfc3339 now vp_token.expires_at in
    let issuer = issuer_check sig vp_token.issuer in
    let nonce = nonce_check server_nonce vp_token.nonce in
    let signature = signature_check sig in
    record {
      is_valid = signature.0 && expiry.0 && issuer.0 && nonce.0;
      signature_valid = signature.0;
      not_expired = expiry.0;
      issuer_trusted = issuer.0;
      errors = expiry.1 ++ issuer.1 ++ nonce.1 ++ signature.1;
      warnings = [];
    }

-- The two `if let`s and the empty object.
claims_or : Option Json → Option IssuerSigned → Json
claims_or (some claims) signed = claims
claims_or none none = obj end
claims_or none (some signed) = elim signed.name_spaces [ none ↦ obj end | some ns ↦ ns ]

unfoldable pub extract_claims : VpToken → Json
unfolding claims_or
extract_claims vp_token = claims_or vp_token.claims vp_token.issuer_signed

-- `matches!(…, DirectPostJwt | DcApiJwt)`
unfoldable pub is_encrypted : ResponseMode → Bool
is_encrypted fragment = false
is_encrypted direct_post = false
is_encrypted direct_post_jwt = true
is_encrypted dc_api = false
is_encrypted dc_api_jwt = true

-- The credential crate's decisions, at the trusted certificates and the thumbprint of the call, the
-- parser of the token, and the clock.
pub record Checks : Type 0 where
  pub parse_vp_token : String → OpenId4vpResult (VpToken × Option String)
  pub verify_mdoc : String → String → String → String → Bool → Result String MdocResult
  pub verify_sd_jwt : String → SigVerificationResult
  pub parse_rfc3339 : String → Option ℤ
  pub now : ℤ

pub record Verified : Type 0 where
  pub claims : Json
  pub doc_type : String
  pub namespace : String
  pub result : VerificationResult
  pub credential_id : Option String

-- `if let (Some(tx), Some(cid)) … && tx.client_id != cid`
unfoldable pub check_client : Option Tx → Option String → OpenId4vpResult (Unit {0})
check_client (some tx) (some cid) =
    if str_eq tx.client_id cid
    then ok tt
    else err (bad_request "client_id does not match the transaction-bound request")
check_client (some tx) none = ok tt
check_client none cid = ok tt

module _ (x : Checks) where
  judge_mdoc : MdocResult → Option String → OpenId4vpResult Verified
  judge_mdoc m credential_id =
      if not m.not_expired
      then err (decoding_error "credential has expired: MSO validUntil is in the past")
      else (if not m.issuer_trusted
          then err (decoding_error "issuerAuth certificate chain is not in the trusted CA list")
          else ok (record {
            claims = m.claims;
            doc_type = m.doc_type;
            namespace = m.namespace;
            result = record {
              is_valid = true;
              signature_valid = true;
              not_expired = m.not_expired;
              issuer_trusted = m.issuer_trusted;
              errors = [];
              warnings = [];
            };
            credential_id = credential_id;
          }))

  unfoldable pub judge_other :
      Option Tx → VpToken → Option String → SigVerificationResult → Verified
  unfolding extract_claims verify_vp_token
  judge_other transaction vp_token credential_id sig = record {
    claims = extract_claims vp_token;
    doc_type = vp_token.doc_type;
    namespace = vp_token.namespace;
    result =
        verify_vp_token x.parse_rfc3339 x.now vp_token (opt_map (λ (tx : Tx). tx.nonce) transaction)
          sig;
    credential_id = credential_id;
  }

  -- The branches on `raw_mdoc` and `raw_sd_jwt`.
  judge :
      Option Tx → VpToken → Option String → Option String → Option String → OpenId4vpResult Verified
  unfolding judge_mdoc judge_other skipped_result is_encrypted
  judge transaction vp_token credential_id (some raw_mdoc) raw_sd_jwt = do
    tx ← ok_or transaction (
        bad_request
          "state is required for mDoc verification so the verifier can reconstruct the OpenID4VP handover")
    m ←
        map_err (λ e. decoding_error ("mDoc presentation verification failed: " <> e))
          (x.verify_mdoc raw_mdoc tx.client_id tx.nonce tx.response_uri
            (is_encrypted tx.response_mode))
    judge_mdoc m credential_id
  judge transaction vp_token credential_id none (some raw) =
      ok (judge_other transaction vp_token credential_id (x.verify_sd_jwt raw))
  judge transaction vp_token credential_id none none = ok (
      judge_other transaction vp_token credential_id
        (skipped_result "presentation format not recognized"))

  unfoldable pub verify_vp_token_against_cas :
      String → Option Tx → Option String → OpenId4vpResult Verified
  unfolding judge check_client
  verify_vp_token_against_cas vp_token_str transaction client_id = do
    check_client transaction client_id
    parsed ← x.parse_vp_token vp_token_str
    judge transaction parsed.0 parsed.1 parsed.0.raw_mdoc parsed.0.raw_sd_jwt
