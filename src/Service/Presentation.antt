-- ===== src/Service/Presentation.antt =====
-- `verify_presentation` and the thumbprint of the response key.
pub mod Law
pub mod Tests
use ewqwe_identity.Prelude.{
  ℕ, String, Bool, true, false, Option, some, none, opt_map, opt_bind, List, [], ◌∷◌, str_eq,
  if◌then◌else◌,
}
use ewqwe_identity.Prelude.Int.{ℤ}
use ewqwe_identity.Prelude.Text.{has_char}
use ewqwe_identity.Prelude.Result.{Result, ok, err, ◌>>=◌, to_option}
use ewqwe_identity.Json.{Json, Fields, str, as_object, as_str}
use ewqwe_identity.Json.Map.{lookup, object}
use ewqwe_identity.Types.{OpenId4vpResult, VpTokenVerificationResult}
use ewqwe_identity.Store.Spec.{Tx}
use ewqwe_identity.Store.Interface.{TransactionStore}
use ewqwe_identity.SdJwt.{DecodedSdJwt}
use ewqwe_identity.SdJwt.Decode.{decode_sd_jwt_presentation}
use ewqwe_identity.Mdoc.{Bytes}
use ewqwe_identity.Vp.{Verified, verify_vp_token_against_cas}
use ewqwe_identity.Vp.Parse.{Readers, checks}
use ewqwe_identity.Service.Base.{OpenId4vpService, JweKey}
use ewqwe_identity.Service.Wallet.{get_transaction_by_state}

-- `obj.get(k)?.as_str()?`
unfoldable pub member : Fields → String → Option String
unfolding lookup
member obj k = opt_bind (lookup k obj) as_str

-- The members that RFC 7638 requires.
unfoldable pub canonical_members : String → Fields → Option Json
unfolding member object
canonical_members kty obj =
    if str_eq kty "EC"
    then opt_bind (member obj "crv") (λ crv. opt_bind (member obj "x") (λ x.
      opt_bind (member obj "y") (λ y.
        some (object (("crv", str crv) ∷ ("kty", str "EC") ∷ ("x", str x) ∷ ("y", str y) ∷ [])))))
    else (if str_eq kty "RSA"
        then opt_bind (member obj "e") (λ e.
          opt_bind (member obj "n")
            (λ n. some (object (("e", str e) ∷ ("kty", str "RSA") ∷ ("n", str n) ∷ []))))
        else (if str_eq kty "OKP"
            then opt_bind (member obj "crv") (λ crv.
              opt_bind (member obj "x")
                (λ x. some (object (("crv", str crv) ∷ ("kty", str "OKP") ∷ ("x", str x) ∷ []))))
            else none))

-- A failure of the store counts as no transaction.
unfoldable pub transaction_for : {S : Type 0} → TransactionStore S → Option String → S → Option Tx
unfolding get_transaction_by_state
transaction_for ops none s = none
transaction_for ops (some state) s = elim (get_transaction_by_state ops state s) [
  | ok tx ↦ tx
  | err e ↦ none
]

unfoldable pub nonce_in : Readers → String → Option String
unfolding has_char decode_sd_jwt_presentation
nonce_in x vp_token_str =
    if has_char b'~' vp_token_str
    then opt_bind (to_option (decode_sd_jwt_presentation x.codec vp_token_str))
        (λ (d : DecodedSdJwt). d.nonce)
    else none

unfoldable pub outcome : Option Tx → Option String → Verified → VpTokenVerificationResult
outcome transaction presentation_nonce v = record {
  is_valid = v.result.is_valid;
  signature_valid = v.result.signature_valid;
  not_expired = v.result.not_expired;
  issuer_trusted = v.result.issuer_trusted;
  errors = v.result.errors;
  warnings = v.result.warnings;
  claims = v.claims;
  doc_type = v.doc_type;
  namespace = v.namespace;
  credential_id = v.credential_id;
  server_nonce = opt_map (λ (tx : Tx). tx.nonce) transaction;
  presentation_nonce = presentation_nonce;
  transaction = transaction;
}

-- serde_json's writer and SHA-256 of a text's bytes.
module _ (json_to_string : Json → Result String String) (sha256 : String → Bytes) where
  thumbprint_of_members : Fields → Option Bytes
  unfolding canonical_members member
  thumbprint_of_members obj = opt_bind (member obj "kty") (λ kty.
      opt_bind (canonical_members kty obj)
        (λ canonical. opt_map sha256 (to_option (json_to_string canonical))))

  unfoldable pub compute_jwk_thumbprint_bytes : Json → Option Bytes
  unfolding thumbprint_of_members
  compute_jwk_thumbprint_bytes jwk = opt_bind (as_object jwk) thumbprint_of_members

  unfoldable pub get_response_jwk_thumbprint : OpenId4vpService → Option Bytes
  unfolding compute_jwk_thumbprint_bytes
  get_response_jwk_thumbprint service =
      opt_bind service.jwe_key (λ (key : JweKey). compute_jwk_thumbprint_bytes key.public_jwk)

  module _ {S : Type 0} (ops : TransactionStore S) (service : OpenId4vpService) (x : Readers)
      (sd_jwt_cas : List x.jose.Cert) (mdoc_cas : List x.mdoc.Cert)
      (parse_rfc3339 : String → Option ℤ) (now : ℤ) where
    unfoldable pub verify_presentation :
        String → Option String → Option String → S → OpenId4vpResult VpTokenVerificationResult
    unfolding transaction_for get_response_jwk_thumbprint verify_vp_token_against_cas checks
        nonce_in outcome
    verify_presentation vp_token_str state client_id s = do
      let transaction = transaction_for ops state s
      let thumbprint = get_response_jwk_thumbprint service
      v ←
          verify_vp_token_against_cas (checks x sd_jwt_cas mdoc_cas thumbprint parse_rfc3339 now)
            vp_token_str transaction client_id
      ok (outcome transaction (nonce_in x vp_token_str) v)
