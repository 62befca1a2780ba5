-- ===== src/Vp/Parse.antt =====
-- `parse_vp_token` of crates/ewqwe-openid4vp/src/verification.rs, and the checks of the credential
-- crate in the place of the parameters of `Vp`.
pub mod Law
pub mod Tests
use ewqwe_identity.Prelude.{
  ℕ, String, ◌<>◌, Bool, true, false, Option, some, none, opt_map, List, [], ◌∷◌, first,
  if◌then◌else◌,
}
use ewqwe_identity.Prelude.Int.{ℤ}
use ewqwe_identity.Prelude.Text.{has_char}
use ewqwe_identity.Prelude.Result.{Result, ok, err, ◌>>=◌, map_err, ok_or}
use ewqwe_identity.Json.{Json, null, bool, int, num, str, arr, obj}
use ewqwe_identity.Types.{OpenId4vpResult, decoding_error}
use ewqwe_identity.Credential.{show_error}
use ewqwe_identity.SdJwt.{DecodedSdJwt}
use ewqwe_identity.SdJwt.Decode.{Codec, decode_sd_jwt_presentation}
use ewqwe_identity.SdJwt.Keys.{Jose}
use ewqwe_identity.SdJwt.Verify.{verify_sd_jwt_signatures}
use ewqwe_identity.Mdoc.{Externals, Bytes}
use ewqwe_identity.Mdoc.Decode.{DecodedMdoc, Claims, decode_mdoc_presentation}
use ewqwe_identity.Mdoc.Verify.{
  MdocVerificationResult, claims_json, verify_mdoc_presentation, Request,
}
use ewqwe_identity.Vp.{VpToken, MdocResult, Checks}

-- serde_json's readers of a `DcqlVpToken`, whose entries stand in the order in which its `HashMap`
-- gives them, and of a `VpToken`; and the libraries of the two formats.
pub record Readers : Type 1 where
  pub dcql_token : String → Option (List (String × List Json))
  pub token_of_text : String → Result String VpToken
  pub token_of_value : Json → Result String VpToken
  pub codec : Codec
  pub jose : Jose
  pub mdoc : Externals

unfoldable pub sd_jwt_token : String → DecodedSdJwt → VpToken
sd_jwt_token encoded_str decoded = record {
  doc_type = decoded.vct;
  namespace = decoded.vct;
  claims = some (obj decoded.claims);
  issuer = some decoded.issuer;
  issued_at = decoded.issued_at;
  expires_at = decoded.expires_at;
  nonce = decoded.nonce;
  raw_sd_jwt = some encoded_str;
  raw_mdoc = none;
  issuer_signed = none;
}

unfoldable pub mdoc_token : String → DecodedMdoc → String → VpToken
unfolding claims_json
mdoc_token encoded_str decoded first_ns = record {
  doc_type = decoded.doc_type;
  namespace = first_ns;
  claims = some (claims_json decoded.namespaces);
  issuer = some "mdoc-issuer";
  issued_at = none;
  expires_at = none;
  nonce = none;
  raw_sd_jwt = none;
  raw_mdoc = some encoded_str;
  issuer_signed = none;
}

abbrev pub Parsed : Type 0
Parsed = OpenId4vpResult (VpToken × Option String)

unfoldable pub no_presentations : Parsed
no_presentations = err (decoding_error "DCQL VP token has no presentations")

module _ (x : Readers) where
  unfoldable pub from_sd_jwt : String → String → Parsed
  unfolding decode_sd_jwt_presentation show_error sd_jwt_token
  from_sd_jwt credential_id encoded_str = do
    decoded ←
        map_err (λ e. decoding_error ("SD-JWT VC decode failed: " <> show_error e))
          (decode_sd_jwt_presentation x.codec encoded_str)
    ok (sd_jwt_token encoded_str decoded, some credential_id)

  unfoldable pub from_mdoc : String → String → Parsed
  unfolding decode_mdoc_presentation show_error mdoc_token
  from_mdoc credential_id encoded_str = do
    decoded ←
        map_err (λ e. decoding_error ("mDoc CBOR decode failed: " <> show_error e))
          (decode_mdoc_presentation x.mdoc encoded_str)
    first_ns ←
        ok_or (opt_map (λ (e : String × Claims). e.0) (first decoded.namespaces))
          (decoding_error "mDoc contains no namespaces")
    ok (mdoc_token encoded_str decoded first_ns, some credential_id)

  unfoldable pub from_presentation : String → Option Json → Parsed
  unfolding no_presentations has_char from_sd_jwt from_mdoc
  from_presentation credential_id (some (str encoded_str)) =
      if has_char b'~' encoded_str
      then from_sd_jwt credential_id encoded_str
      else from_mdoc credential_id encoded_str
  from_presentation credential_id (some (obj fs)) = do
    vp_token ←
        map_err (λ e. decoding_error ("Failed to parse DCQL presentation: " <> e))
          (x.token_of_value (obj fs))
    ok (vp_token, some credential_id)
  from_presentation credential_id other = no_presentations

  unfoldable pub from_dcql : Option (String × List Json) → Parsed
  unfolding no_presentations from_presentation
  from_dcql none = no_presentations
  from_dcql (some (credential_id, presentations)) =
      from_presentation credential_id (first presentations)

  unfoldable pub parse_vp_token : String → Parsed
  unfolding from_dcql
  parse_vp_token vp_token_str = elim (x.dcql_token vp_token_str) [
    | some dcql_token ↦ from_dcql (first dcql_token)
    | none ↦
        map_err (λ e. decoding_error ("Invalid VP token format: " <> e))
          (x.token_of_text vp_token_str)
        >>= λ vp_token. ok (vp_token, none)
  ]

  unfoldable pub mdoc_result : MdocVerificationResult → MdocResult
  mdoc_result r = record {
    not_expired = r.not_expired;
    issuer_trusted = r.issuer_trusted;
    claims = r.claims;
    doc_type = r.doc_type;
    namespace = r.namespace;
  }

  -- The checks, at one list of trusted certificates, which each library holds in its own form, at the
  -- thumbprint of the response key, and at a reading of the clock.
  unfoldable pub checks :
      List x.jose.Cert → List x.mdoc.Cert → Option Bytes → (String → Option ℤ) → ℤ → Checks
  unfolding parse_vp_token verify_mdoc_presentation verify_sd_jwt_signatures mdoc_result show_error
  checks sd_jwt_cas mdoc_cas thumbprint parse_rfc3339 now = record {
    parse_vp_token = parse_vp_token;
    verify_mdoc = λ raw client_id nonce response_uri requires_encryption.
        map_err show_error (
          verify_mdoc_presentation x.mdoc now raw
            (record {
              client_id = client_id;
              nonce = nonce;
              response_uri = response_uri;
              requires_encryption = requires_encryption;
              response_jwk_thumbprint = thumbprint;
            })
            mdoc_cas)
        >>= λ r. ok (mdoc_result r);
    verify_sd_jwt = λ raw. verify_sd_jwt_signatures x.jose raw sd_jwt_cas;
    parse_rfc3339 = parse_rfc3339;
    now = now;
  }
