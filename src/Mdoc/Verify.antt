-- ===== src/Mdoc/Verify.antt =====
-- `verify_mdoc_presentation`.
pub mod Law
use ewqwe_identity.Prelude.{
  ℕ, String, ◌<>◌, Bool, true, false, not, Option, some, none, opt_map, List, [], ◌∷◌, first,
  str_eq, if◌then◌else◌,
}
use ewqwe_identity.Prelude.Int.{ℤ}
use ewqwe_identity.Prelude.Result.{Result, ok, err, ◌>>=◌, ◌>>◌, map_err}
use ewqwe_identity.Json.{Json, Fields, obj, end}
use ewqwe_identity.Json.Map.{insert_all, insert}
use ewqwe_identity.Cbor.{
  Cbor, unwrap_cbor_tags, as_cbor_map, as_cbor_array, cbor_map_get, cbor_map_get_text, tag, bytes,
}
use ewqwe_identity.Credential.{CredentialResult, show_error, invalid_presentation, need, because}
use ewqwe_identity.Mdoc.{Externals, Bytes}
use ewqwe_identity.Mdoc.Decode.{DecodedMdoc, Claims, decode_base64, decode_mdoc_presentation}
use ewqwe_identity.Mdoc.Cose.{
  must, parse_cose_sign1_from_value, extract_x5chain_from_cose, verify_cose_certificate_chain,
  verify_cose_sign1_embedded, verify_cose_sign1_detached, cose_key_to_public_key,
}
use ewqwe_identity.Mdoc.Mso.{
  ParsedMobileSecurityObject, map_within, parse_mobile_security_object,
  verify_issuer_signed_item_digests, validate_mso_validity,
}
use ewqwe_identity.Mdoc.Device.{
  cbor_to_vec_fallible, extract_device_namespaces_bytes, build_openid4vp_session_transcript,
  build_device_authentication_payload,
}

pub record MdocVerificationResult : Type 0 where
  pub claims : Json
  pub doc_type : String
  pub namespace : String
  pub not_expired : Bool
  pub issuer_trusted : Bool

-- What the call is made with besides the presentation.
pub record Request : Type 0 where
  pub client_id : String
  pub nonce : String
  pub response_uri : String
  pub requires_encryption : Bool
  pub response_jwk_thumbprint : Option Bytes

unfoldable pub extract_first_document : Cbor → CredentialResult Cbor
unfolding unwrap_cbor_tags as_cbor_map as_cbor_array cbor_map_get
extract_first_document cbor = do
  map ← need (as_cbor_map (unwrap_cbor_tags cbor)) "mDoc top-level value is not a map"
  elim (cbor_map_get map "documents") [
    | some documents ↦
        need (as_cbor_array (unwrap_cbor_tags documents))
          "mDoc DeviceResponse.documents is not an array"
        >>= λ docs. need (first docs) "mDoc DeviceResponse.documents is empty"
    | none ↦ ok (unwrap_cbor_tags cbor)
  ]

unfoldable pub get_or_missing : List (Cbor × Cbor) → String → String → CredentialResult Cbor
unfolding cbor_map_get
get_or_missing map key what = need (cbor_map_get map key) what

unfoldable pub insert_namespaces : List (String × Claims) → Fields → Fields
unfolding insert_all insert
insert_namespaces [] acc = acc
insert_namespaces ((ns, ns_claims) ∷ rest) acc =
    insert_namespaces rest (insert ns (obj (insert_all ns_claims end)) acc)

-- The claims of one namespace, or an object of the namespaces.
unfoldable pub claims_json : List (String × Claims) → Json
unfolding insert_all insert_namespaces
claims_json ((ns, ns_claims) ∷ []) = obj (insert_all ns_claims end)
claims_json namespaces = obj (insert_namespaces namespaces end)

module _ (x : Externals) where
  -- The issuer's part: the object that it has signed, and whether it is trusted.
  unfoldable pub verify_issuer_auth :
      List (Cbor × Cbor) → List x.Cert → CredentialResult (ParsedMobileSecurityObject × Bool)
  unfolding get_or_missing parse_cose_sign1_from_value extract_x5chain_from_cose
      verify_cose_certificate_chain verify_cose_sign1_embedded parse_mobile_security_object
  verify_issuer_auth issuer_signed_map trusted_cas = do
    value ← get_or_missing issuer_signed_map "issuerAuth" "issuerSigned missing issuerAuth"
    issuer_auth ← parse_cose_sign1_from_value x value
    issuer_chain ← extract_x5chain_from_cose issuer_auth
    found ← verify_cose_certificate_chain x issuer_chain trusted_cas
    verify_cose_sign1_embedded x issuer_auth found.0
    payload ← need issuer_auth.payload "issuerAuth missing payload"
    mso ← parse_mobile_security_object x payload
    ok (mso, found.1)

  -- The device's part.
  unfoldable pub verify_device_auth :
      List (Cbor × Cbor)
      → String
      → ParsedMobileSecurityObject
      → Request
      → CredentialResult (Unit {0})
  unfolding get_or_missing map_within extract_device_namespaces_bytes parse_cose_sign1_from_value
      build_openid4vp_session_transcript build_device_authentication_payload cbor_to_vec_fallible
      cose_key_to_public_key verify_cose_sign1_detached
  verify_device_auth document_map doc_type mso request = do
    device_signed ← get_or_missing document_map "deviceSigned" "mDoc missing deviceSigned"
    device_signed_map ← map_within device_signed "deviceSigned is not a CBOR map"
    device_name_spaces_bytes ← extract_device_namespaces_bytes x device_signed_map
    device_auth ← get_or_missing device_signed_map "deviceAuth" "deviceSigned missing deviceAuth"
    device_auth_map ← map_within device_auth "deviceAuth is not a CBOR map"
    value ←
        get_or_missing device_auth_map "deviceSignature"
          "deviceAuth.deviceMac is not supported by this verifier; expected deviceSignature"
    device_signature ← parse_cose_sign1_from_value x value
    session_transcript ←
        build_openid4vp_session_transcript x request.client_id request.nonce request.response_uri
          request.requires_encryption request.response_jwk_thumbprint
    raw ← build_device_authentication_payload x session_transcript doc_type device_name_spaces_bytes
    device_authentication_bytes ← cbor_to_vec_fallible x (tag 24 (bytes raw))
    device_key ← cose_key_to_public_key x mso.device_key
    verify_cose_sign1_detached x device_signature device_key device_authentication_bytes

  -- The document's part: its type, the issuer's object, the device's signature.
  unfoldable pub verify_document :
      Cbor → Request → List x.Cert → CredentialResult (String × ParsedMobileSecurityObject × Bool)
  unfolding get_or_missing map_within as_cbor_map cbor_map_get_text verify_issuer_auth must
      verify_issuer_signed_item_digests verify_device_auth
  verify_document document request trusted_cas = do
    document_map ← need (as_cbor_map document) "mDoc document is not a CBOR map"
    doc_type ← need (cbor_map_get_text document_map "docType") "mDoc document missing docType"
    issuer_signed ← get_or_missing document_map "issuerSigned" "mDoc missing issuerSigned"
    issuer_signed_map ← map_within issuer_signed "issuerSigned is not a CBOR map"
    name_spaces ← get_or_missing issuer_signed_map "nameSpaces" "issuerSigned missing nameSpaces"
    name_spaces_map ← map_within name_spaces "issuerSigned.nameSpaces is not a map"
    issuer ← verify_issuer_auth issuer_signed_map trusted_cas
    must (str_eq issuer.0.doc_type doc_type)
        "mDoc docType does not match MobileSecurityObject docType"
    verify_issuer_signed_item_digests x name_spaces_map issuer.0
    verify_device_auth document_map doc_type issuer.0 request
    ok (doc_type, issuer.0, issuer.1)

  unfoldable pub verify_mdoc_presentation :
      ℤ → String → Request → List x.Cert → CredentialResult MdocVerificationResult
  unfolding decode_mdoc_presentation decode_base64 extract_first_document verify_document
      claims_json validate_mso_validity
  verify_mdoc_presentation now encoded request trusted_cas = do
    decoded ←
        map_err (λ e. invalid_presentation ("mDoc CBOR decode failed: " <> show_error e))
          (decode_mdoc_presentation x encoded)
    b ← because "mDoc base64 decode failed" (decode_base64 x encoded)
    cbor ← because "mDoc CBOR parse failed" (x.from_reader b)
    document ← extract_first_document cbor
    found ← verify_document document request trusted_cas
    namespace ←
        need (opt_map (λ (e : String × Claims). e.0) (first decoded.namespaces))
          "mDoc presentation contains no namespaces"
    not_expired ← validate_mso_validity x now found.1
    ok (record {
      claims = claims_json decoded.namespaces;
      doc_type = found.0;
      namespace = namespace;
      not_expired = not_expired;
      issuer_trusted = found.2;
    })
