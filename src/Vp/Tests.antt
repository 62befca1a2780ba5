-- ===== src/Vp/Tests.antt =====
-- Runs of the verification of a token.
use ewqwe_identity.Prelude.{◌≡◌, ◌↔◌, refl, true, false, none, some, []}
use ewqwe_identity.Prelude.Int.{pos}
use ewqwe_identity.Prelude.Result.{ok}
use ewqwe_identity.Json.{str, null}
use ewqwe_identity.Store.Spec.{Tx}
use ewqwe_identity.Store.Tests.{tx_1}
use ewqwe_identity.SdJwt.{SigVerificationResult}
use ewqwe_identity.Vp.{
  VpToken, MdocResult, Checks, Verified, verify_vp_token, verify_vp_token_against_cas, is_encrypted,
}
use ewqwe_identity.Vp.Law.{
  IsSigned, NotExpired, NonceAgrees, verify_vp_token-valid_iff,
  verify_vp_token_against_cas-unsigned, verify_vp_token_against_cas-mdoc,
}

-- What a wallet could write by hand.
abbrev unsigned : VpToken
unsigned = record {
  doc_type = "pid";
  namespace = "pid";
  claims = some (str "anything");
  issuer = some "me";
  issued_at = none;
  expires_at = none;
  nonce = none;
  raw_sd_jwt = none;
  raw_mdoc = none;
  issuer_signed = none;
}

abbrev mdoc : VpToken
mdoc = record unsigned { raw_mdoc = some "raw" }

abbrev signed : SigVerificationResult
signed = record {
  issuer_sig_valid = true;
  issuer_trusted = true;
  kb_sig_valid = true;
  errors = [];
  skipped = false;
}

abbrev mdoc_result : MdocResult
mdoc_result = record {
  not_expired = true;
  issuer_trusted = true;
  claims = null;
  doc_type = "pid";
  namespace = "pid";
}

abbrev checks_of : VpToken → Checks
checks_of tok = record {
  parse_vp_token = λ text. ok (tok, none);
  verify_mdoc = λ raw client nonce uri encrypted. ok mdoc_result;
  verify_sd_jwt = λ raw. signed;
  parse_rfc3339 = λ text. some (pos 5);
  now = pos 9;
}

-- The instant 5 has passed at 9.
verify_vp_token-valid_iff_example :
    ((verify_vp_token
        (λ text. some (pos 5))
        (pos 9)
        (record unsigned { expires_at = some "5" })
        (some "n")
        signed).is_valid
      ≡ true)
    ↔ (IsSigned signed (some "me")
        × NotExpired (λ text. some (pos 5)) (pos 9) (some "5")
        × NonceAgrees (some "n") none)
verify_vp_token-valid_iff_example =
    verify_vp_token-valid_iff (λ text. some (pos 5)) (pos 9)
      (record unsigned { expires_at = some "5" }) (some "n") signed

verify_vp_token_against_cas-unsigned_example :
    (v : Verified) × (verify_vp_token_against_cas
        (checks_of unsigned)
        "{}"
        (some tx_1)
        (some tx_1.client_id)
      ≡ ok v)
    × (v.result.is_valid ≡ true)
verify_vp_token_against_cas-unsigned_example =
    verify_vp_token_against_cas-unsigned (checks_of unsigned) "{}" (some tx_1) (some tx_1.client_id)
      unsigned none "me" (λ tx c e f. cc (e, f)) refl refl refl refl refl refl

abbrev verified_mdoc : Verified
verified_mdoc = record {
  claims = null;
  doc_type = "pid";
  namespace = "pid";
  result = record {
    is_valid = true;
    signature_valid = true;
    not_expired = true;
    issuer_trusted = true;
    errors = [];
    warnings = [];
  };
  credential_id = none;
}

accepts_mdoc : verify_vp_token_against_cas (checks_of mdoc) "{}" (some tx_1) none ≡ ok verified_mdoc
unfolding verify_vp_token_against_cas
accepts_mdoc = refl

verify_vp_token_against_cas-mdoc_example :
    (tx : Tx) × (m : MdocResult) × (some tx_1 ≡ some tx)
    × ((checks_of mdoc).verify_mdoc "raw" tx.client_id tx.nonce tx.response_uri
          (is_encrypted tx.response_mode)
        ≡ ok m)
    × (m.not_expired ≡ true)
    × (m.issuer_trusted ≡ true)
    × (verified_mdoc.claims ≡ m.claims)
verify_vp_token_against_cas-mdoc_example =
    verify_vp_token_against_cas-mdoc (checks_of mdoc) "{}" "raw" (some tx_1) none mdoc none
      verified_mdoc refl refl accepts_mdoc
