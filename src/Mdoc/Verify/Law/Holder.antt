-- ===== src/Mdoc/Verify/Law/Holder.antt =====
-- An accepted mdoc presentation is signed by the device, for this request, and is in force.
use ewqwe_identity.Prelude.{String, ◌≡◌}
use ewqwe_identity.Prelude.Result.{ok}
use ewqwe_identity.Cbor.{Cbor, tag, bytes}
use ewqwe_identity.Mdoc.{Externals, Bytes, CoseSign1}
use ewqwe_identity.Mdoc.Cose.{cose_key_to_public_key, verify_cose_sign1_detached}
use ewqwe_identity.Mdoc.Mso.{ParsedMobileSecurityObject}
use ewqwe_identity.Mdoc.Device.{
  build_openid4vp_session_transcript, build_device_authentication_payload,
}
use ewqwe_identity.Mdoc.Verify.{Request}

module _ (x : Externals) where
  -- A detached signature over the device authentication of this request and document type verifies
  -- under the device key of the object.
  abbrev pub SignedByDevice : ParsedMobileSecurityObject → String → Request → Type 0
  SignedByDevice mso doc_type q =
      (sig : CoseSign1) × (key : x.PublicKey) × (namespaces : Bytes) × (transcript : Bytes)
      × (raw : Bytes) × (payload : Bytes) × (cose_key_to_public_key x mso.device_key ≡ ok key)
      × (build_openid4vp_session_transcript x q.client_id q.nonce q.response_uri
            q.requires_encryption q.response_jwk_thumbprint
          ≡ ok transcript)
      × (build_device_authentication_payload x transcript doc_type namespaces ≡ ok raw)
      × (x.into_writer (tag 24 (bytes raw)) ≡ ok payload)
      × (verify_cose_sign1_detached x sig key payload ≡ ok tt)
