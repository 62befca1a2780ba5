-- ===== src/Mdoc/Device.antt =====
-- mdoc_verification.rs: what the device signs.
pub mod Law
use ewqwe_identity.Prelude.{
  ℕ, String, Bool, true, false, Option, some, none, List, [], ◌∷◌, ◌==◌, if◌then◌else◌,
}
use ewqwe_identity.Prelude.Result.{Result, ok, err, ◌>>=◌}
use ewqwe_identity.Cbor.{
  Cbor, Cells, last, cell, done, tag, bytes, text, array, map_of, nothing, as_bytes, cbor_map_get,
}
use ewqwe_identity.Credential.{CredentialResult, invalid_presentation, need, because}
use ewqwe_identity.Mdoc.{Externals, Bytes}

-- The bytes that `Array` gets, only with encryption.
unfoldable pub thumbprint_value : Bool → Option Bytes → CredentialResult Cbor
thumbprint_value true thumbprint = do
  b ← need thumbprint "response encryption key thumbprint is required for encrypted mDoc responses"
  ok (bytes b)
thumbprint_value false thumbprint = ok nothing

unfoldable pub handover_info : String → String → Cbor → String → Cbor
handover_info client_id nonce thumbprint response_uri =
    array
      (cell (text client_id) (cell (text nonce) (cell thumbprint (cell (text response_uri) last))))

module _ (x : Externals) where
  unfoldable pub cbor_to_vec_fallible : Cbor → CredentialResult Bytes
  cbor_to_vec_fallible value = because "CBOR serialisation failed" (x.into_writer value)

  -- The arms of `extract_device_namespaces_bytes`.
  namespaces_bytes : Option Cbor → CredentialResult Bytes
  unfolding as_bytes
  namespaces_bytes (some (bytes b)) = ok b
  namespaces_bytes (some (tag n inner)) =
      if n == 24
      then need (as_bytes inner) "deviceSigned.nameSpaces tag 24 does not contain bytes"
      else because "failed to serialize deviceSigned.nameSpaces" (x.into_writer (tag n inner))
  namespaces_bytes (some v) =
      because "failed to serialize deviceSigned.nameSpaces" (x.into_writer v)
  namespaces_bytes none =
      because "failed to serialize empty device namespaces" (x.into_writer (map_of done))

  unfoldable pub extract_device_namespaces_bytes : List (Cbor × Cbor) → CredentialResult Bytes
  unfolding namespaces_bytes cbor_map_get
  extract_device_namespaces_bytes device_signed_map =
      namespaces_bytes (cbor_map_get device_signed_map "nameSpaces")

  unfoldable pub transcript_of : Bytes → Cbor
  transcript_of handover_info_bytes = array (
      cell nothing (
        cell nothing (
          cell
            (array (
              cell (text "OpenID4VPHandover")
                (cell (bytes (x.sha256_of handover_info_bytes)) last)))
            last)))

  unfoldable pub build_openid4vp_session_transcript :
      String → String → String → Bool → Option Bytes → CredentialResult Bytes
  unfolding thumbprint_value handover_info cbor_to_vec_fallible transcript_of
  build_openid4vp_session_transcript client_id nonce response_uri requires_encryption thumbprint =
      do
        jwk_thumbprint ← thumbprint_value requires_encryption thumbprint
        handover_info_bytes ←
            cbor_to_vec_fallible (handover_info client_id nonce jwk_thumbprint response_uri)
        cbor_to_vec_fallible (transcript_of handover_info_bytes)

  unfoldable pub device_authentication : Cbor → String → Bytes → Cbor
  device_authentication session_transcript doc_type namespaces = array (
      cell (text "DeviceAuthentication")
        (cell session_transcript (cell (text doc_type) (cell (tag 24 (bytes namespaces)) last))))

  unfoldable pub build_device_authentication_payload :
      Bytes → String → Bytes → CredentialResult Bytes
  unfolding device_authentication cbor_to_vec_fallible
  build_device_authentication_payload session_transcript doc_type namespaces = do
    transcript ←
        because "failed to parse SessionTranscript bytes" (x.from_reader session_transcript)
    cbor_to_vec_fallible (device_authentication transcript doc_type namespaces)
