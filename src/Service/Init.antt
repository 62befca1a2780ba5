-- ===== src/Service/Init.antt =====
-- `init_transaction` and `build_authorization_request_uri`.
pub mod Law
pub mod Default
use ewqwe_identity.Prelude.{
  String, Bool, true, false, Option, none, some, get_or, List, [], ◌∷◌, ◌<>◌,
}
use ewqwe_identity.Prelude.Int.{ℤ, add_i64, times_1000}
use ewqwe_identity.Prelude.Result.{Result, ok, err, ◌>>=◌, map_err, ok_or, to_option}
use ewqwe_identity.Types.{
  OpenId4vpError, OpenId4vpResult, bad_request, config, ProfileId, haip, haip_x509_san_dns, annex_a,
  ClientIdScheme, ResponseMode, direct_post, direct_post_jwt, mode_to_string, DcqlQuery,
  ClientMetadata, default_client_metadata, pending, InitTransactionRequest, InitTransactionResponse,
}
use ewqwe_identity.Config.{determine_profile}
use ewqwe_identity.Dcql.Build.{build_default_dcql_for_credential_type}
use ewqwe_identity.Dcql.Validity.{is_valid}
use ewqwe_identity.Dcql.Validity.Message.{message}
use ewqwe_identity.Store.Spec.{Tx}
use ewqwe_identity.Store.Interface.{TransactionStore}
use ewqwe_identity.Service.Base.{OpenId4vpService, JarKey, Externals}

-- What one call draws from its surroundings: a UUID, two results of `gen_compact_token`, the clock.
pub record Draws : Type 0 where
  pub uuid : String
  pub state_token : OpenId4vpResult String
  pub nonce_token : OpenId4vpResult String
  pub now : ℤ

-- The four values that depend on the profile.
pub record Client : Type 0 where
  pub client_id : String
  pub client_id_scheme : ClientIdScheme
  pub response_mode : ResponseMode
  pub url_scheme : String

unfoldable pub not_configured : OpenId4vpError
not_configured =
    config
      "Unable to initialize transaction: HAIP is not configured; the JAR keys are not configured"

unfoldable pub client_for : Option JarKey → ProfileId → String → OpenId4vpResult Client
unfolding not_configured
client_for jar_key haip response_uri = do
  key ← ok_or jar_key not_configured
  ok (record {
    client_id = "x509_hash:" <> key.cert_hash;
    client_id_scheme = ClientIdScheme.x509_hash;
    response_mode = direct_post_jwt;
    url_scheme = "eudi-openid4vp://";
  })
client_for jar_key haip_x509_san_dns response_uri = do
  key ← ok_or jar_key not_configured
  ok (record {
    client_id = "x509_san_dns:" <> key.san_dns_name;
    client_id_scheme = ClientIdScheme.x509_san_dns;
    response_mode = direct_post_jwt;
    url_scheme = "eudi-openid4vp://";
  })
client_for jar_key annex_a response_uri = ok (record {
  client_id = "redirect_uri:" <> response_uri;
  client_id_scheme = ClientIdScheme.redirect_uri;
  response_mode = direct_post;
  url_scheme = "av://";
})

-- `if let Some(value) = given { value } else { gen_compact_token()? }`
unfoldable pub given_or : Option String → OpenId4vpResult String → OpenId4vpResult String
given_or (some value) token = ok value
given_or none token = token

unfoldable pub query_for : InitTransactionRequest → DcqlQuery
unfolding build_default_dcql_for_credential_type
query_for request =
    get_or request.dcql_query
      (build_default_dcql_for_credential_type (get_or request.credential_type "proof-of-age"))

unfoldable pub response_uri_of : String → String
response_uri_of public_url = public_url <> "/ewqwe_api/openid4vp/direct_post"

unfoldable pub request_uri_of : String → String → String
request_uri_of public_url id = public_url <> "/ewqwe_api/openid4vp/request/" <> id

default_metadata : String → ClientMetadata
default_metadata public_url = record default_client_metadata {
  logo_uri = some (public_url <> "/logo.png");
}

module _ (x : Externals) (service : OpenId4vpService) where
  unfoldable pub check_query : DcqlQuery → OpenId4vpResult (Unit {0})
  unfolding is_valid message
  check_query q =
      map_err (λ e. bad_request ("Invalid dcql_query: " <> message x.quoted e))
        (is_valid x.is_alphanumeric q)

  -- The transaction that is written, with the URL scheme of its link.
  unfoldable pub prepare : InitTransactionRequest → String → Draws → OpenId4vpResult (Tx × String)
  unfolding determine_profile given_or client_for query_for response_uri_of default_metadata
      check_query add_i64 times_1000
  prepare request public_url draws = do
    let profile = determine_profile request.credential_type request.profile
    state ← given_or request.state draws.state_token
    nonce ← given_or request.nonce draws.nonce_token
    client ← client_for service.jar_key profile (response_uri_of public_url)
    checked ← check_query (query_for request)
    ok (
      record {
        id = draws.uuid;
        state = state;
        nonce = nonce;
        created_at = draws.now;
        expires_at = add_i64 draws.now (times_1000 service.ttl_secs);
        status = pending;
        dcql_query = query_for request;
        client_id = client.client_id;
        client_id_scheme = client.client_id_scheme;
        response_uri = response_uri_of public_url;
        response_mode = client.response_mode;
        profile = profile;
        wallet_response = none;
        wallet_error = none;
        verification_result = none;
        error_message = none;
        client_metadata = some (get_or request.client_metadata (default_metadata public_url));
        transaction_data = request.transaction_data;
      },
      client.url_scheme,
    )

  by_reference : String → String → String → String
  by_reference url_scheme client_id request_uri =
      url_scheme
      <> "?client_id="
      <> x.url_encode client_id
      <> "&request_uri="
      <> x.url_encode request_uri

  unfoldable pub build_authorization_request_uri : Tx → String → String → String
  unfolding by_reference mode_to_string
  build_authorization_request_uri tx url_scheme request_uri = elim tx.profile [
    | haip ↦ by_reference url_scheme tx.client_id request_uri
    | haip_x509_san_dns ↦ by_reference url_scheme tx.client_id request_uri
    | annex_a ↦
        url_scheme
        <> "?"
        <> x.form_encode (
            ("client_id", tx.client_id)
            ∷ ("response_type", "vp_token")
            ∷ ("response_mode", mode_to_string tx.response_mode)
            ∷ ("response_uri", tx.response_uri)
            ∷ ("nonce", tx.nonce)
            ∷ ("state", tx.state)
            ∷ (
              "dcql_query",
              get_or (to_option (x.json_to_string (x.query_to_json tx.dcql_query))) "",
            )
            ∷ [])
  ]

  unfoldable pub response_for : String → Tx → String → InitTransactionResponse
  unfolding build_authorization_request_uri request_uri_of
  response_for public_url tx url_scheme =
      let request_uri = request_uri_of public_url tx.id in
      let link = build_authorization_request_uri tx url_scheme request_uri in
      record {
        transaction_id = tx.id;
        client_id = tx.client_id;
        client_id_scheme = tx.client_id_scheme;
        request_uri = request_uri;
        authorization_request_uri = link;
        expires_in = service.ttl_secs;
        profile = tx.profile;
        qr_code_data_url = x.qr_code link;
      }

  module _ {S : Type 0} (ops : TransactionStore S) where
    -- `self.transactions.set(transaction).await?`, and the answer.
    answer :
        InitTransactionResponse
        → OpenId4vpResult (Unit {0}) × S
        → OpenId4vpResult InitTransactionResponse × S
    answer r (ok u, s) = (ok r, s)
    answer r (err e, s) = (err e, s)

    store_prepared :
        String → OpenId4vpResult (Tx × String) → S → OpenId4vpResult InitTransactionResponse × S
    unfolding answer response_for
    store_prepared public_url (err e) s = (err e, s)
    store_prepared public_url (ok (tx, url_scheme)) s =
        answer (response_for public_url tx url_scheme) (ops.set tx s)

    unfoldable pub init_transaction :
        InitTransactionRequest → String → Draws → S → OpenId4vpResult InitTransactionResponse × S
    unfolding store_prepared prepare
    init_transaction request public_url draws s =
        store_prepared public_url (prepare request public_url draws) s
