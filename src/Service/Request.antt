-- ===== src/Service/Request.antt =====
-- `get_authorization_request`: what a wallet fetches from `request_uri`.
pub mod Law
pub mod Names
use ewqwe_identity.Prelude.{
  String, Bool, true, false, Option, none, some, get_or, opt_map, opt_bind, List, [], ◌∷◌, map,
}
use ewqwe_identity.Prelude.Int.{ℤ, negsuc, div_1000}
use ewqwe_identity.Prelude.Result.{Result, ok, err, ◌>>=◌, ok_or, map_err}
use ewqwe_identity.Types.{
  OpenId4vpResult, config, not_found, expired_transaction, internal, haip, haip_x509_san_dns,
  annex_a, ProfileId, ClientMetadata, scheme_to_string, mode_to_string, AuthorizationRequestResult,
}
use ewqwe_identity.Json.{Json, str, arr, int, Items, nil, cons}
use ewqwe_identity.Prelude.{◌<>◌}
use ewqwe_identity.Store.Spec.{Tx}
use ewqwe_identity.Store.Interface.{TransactionStore}
use ewqwe_identity.Service.Base.{
  OpenId4vpService, JarKey, JweKey, JarPayload, Externals, object, assign,
}

unfoldable pub to_items : List Json → Items
to_items [] = nil
to_items (v ∷ vs) = cons v (to_items vs)

algs : Json
unfolding to_items
algs = arr (to_items (int (negsuc 6) ∷ int (negsuc 34) ∷ int (negsuc 35) ∷ []))

fallback_formats : Json
unfolding object algs
fallback_formats = object (
    ("mso_mdoc", object (("issuerauth_alg_values", algs) ∷ ("deviceauth_alg_values", algs) ∷ []))
    ∷ [])

module _ (x : Externals) where
  base_formats : Option ClientMetadata → Json
  unfolding fallback_formats
  base_formats metadata =
      get_or (opt_map x.formats_to_json (opt_bind metadata (λ (m : ClientMetadata). m.vp_formats)))
        fallback_formats

  unfoldable pub metadata_json : Option ClientMetadata → Json
  unfolding object base_formats
  metadata_json metadata = object (
      (
        "client_name",
        str (get_or (opt_bind metadata (λ (m : ClientMetadata). m.client_name)) "ewQwe Client"),
      )
      ∷ ("logo_uri", str (get_or (opt_bind metadata (λ (m : ClientMetadata). m.logo_uri)) ""))
      ∷ ("vp_formats_supported", base_formats metadata)
      ∷ [])

  -- The parameters of the encryption of the wallet's response.
  unfoldable pub with_encryption : JweKey → Json → Json
  unfolding assign object to_items
  with_encryption key metadata = assign "authorization_encrypted_response_enc" (str "A256GCM") (
      assign "authorization_encrypted_response_alg" (str "ECDH-ES")
        (assign "jwks" (object (("keys", arr (to_items (key.public_jwk ∷ []))) ∷ [])) metadata))

  unfoldable pub jar_payload : Tx → JweKey → JarPayload
  unfolding metadata_json with_encryption scheme_to_string mode_to_string div_1000
  jar_payload tx key = record {
    client_id = tx.client_id;
    client_id_scheme = scheme_to_string tx.client_id_scheme;
    response_mode = mode_to_string tx.response_mode;
    response_uri = tx.response_uri;
    state = tx.state;
    nonce = tx.nonce;
    dcql_query = x.query_to_json tx.dcql_query;
    client_metadata = with_encryption key (metadata_json tx.client_metadata);
    expires_at_secs = div_1000 tx.expires_at;
    transaction_data = tx.transaction_data;
  }

  unfoldable pub signed_request : OpenId4vpService → Tx → OpenId4vpResult AuthorizationRequestResult
  unfolding jar_payload
  signed_request service tx = do
    jar_key ←
        ok_or service.jar_key
          (config "HAIP is not configured; JAR signing key not available for JAR signing")
    jwe_key ←
        ok_or service.jwe_key (config "HAIP is not configured; JWE encryption key not available")
    jwt ← x.sign_jar (jar_payload tx jwe_key) jar_key
    ok (record { body = jwt; content_type = "application/oauth-authz-req+jwt" })

  -- `if let Some(ref td) = transaction.transaction_data { obj.insert("transaction_data", …) }`
  pub with_data : Option (List String) → Json → Json
  unfolding assign to_items
  with_data none request = request
  with_data (some td) request = assign "transaction_data" (arr (to_items (map str td))) request

  unfoldable pub plain_json : Tx → Json
  unfolding object with_data metadata_json scheme_to_string mode_to_string
  plain_json tx = with_data tx.transaction_data (
      object (
        ("client_id", str tx.client_id)
        ∷ ("client_id_scheme", str (scheme_to_string tx.client_id_scheme))
        ∷ ("response_type", str "vp_token")
        ∷ ("response_mode", str (mode_to_string tx.response_mode))
        ∷ ("response_uri", str tx.response_uri)
        ∷ ("state", str tx.state)
        ∷ ("nonce", str tx.nonce)
        ∷ ("dcql_query", x.query_to_json tx.dcql_query)
        ∷ ("client_metadata", metadata_json tx.client_metadata)
        ∷ []))

  unfoldable pub plain_request : Tx → OpenId4vpResult AuthorizationRequestResult
  unfolding plain_json
  plain_request tx = do
    body ← map_err (λ e. internal ("JSON serialization: " <> e)) (x.json_to_string (plain_json tx))
    ok (record { body = body; content_type = "application/json" })

  unfoldable pub request_by :
      OpenId4vpService → Tx → ProfileId → OpenId4vpResult AuthorizationRequestResult
  unfolding signed_request plain_request
  request_by service tx haip = signed_request service tx
  request_by service tx haip_x509_san_dns = signed_request service tx
  request_by service tx annex_a = plain_request tx

  unfoldable pub request_for :
      OpenId4vpService → Option Tx → OpenId4vpResult AuthorizationRequestResult
  unfolding request_by
  request_for service none = err (not_found "Transaction not found")
  request_for service (some tx) = request_by service tx tx.profile

  module _ {S : Type 0} (ops : TransactionStore S) where
    unfoldable pub fetch :
        OpenId4vpService
        → String
        → OpenId4vpResult Bool × S
        → OpenId4vpResult AuthorizationRequestResult × S
    unfolding request_for
    fetch service id (err e, s) = (err e, s)
    fetch service id (ok true, s) = (err (expired_transaction "Transaction expired"), s)
    fetch service id (ok false, s) = (ops.get id s >>= request_for service, s)

    unfoldable pub get_authorization_request :
        OpenId4vpService → ℤ → String → S → OpenId4vpResult AuthorizationRequestResult × S
    unfolding fetch
    get_authorization_request service clock id s = fetch service id (ops.is_expired clock id s)
