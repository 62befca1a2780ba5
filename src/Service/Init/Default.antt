-- ===== src/Service/Init/Default.antt =====
-- A call without a query of its own is never refused for its query.
use ewqwe_identity.Prelude.{String, ◌≡◌, refl, none, get_or}
use ewqwe_identity.Prelude.Result.{ok}
use ewqwe_identity.Types.{InitTransactionRequest}
use ewqwe_identity.Config.{determine_profile}
use ewqwe_identity.Dcql.Build.Valid.{built_queries_valid}
use ewqwe_identity.Dcql.Validity.Ascii.{PermitsAscii}
use ewqwe_identity.Store.Spec.{Tx}
use ewqwe_identity.Service.Base.{OpenId4vpService, Externals}
use ewqwe_identity.Service.Init.{
  Draws, Client, client_for, given_or, query_for, response_uri_of, check_query, prepare,
}

module _ (x : Externals) (permits : PermitsAscii x.is_alphanumeric)
    (service : OpenId4vpService) where
  default_checked :
      (request : InitTransactionRequest)
      → request.dcql_query ≡ none
      → check_query x service (query_for request) ≡ ok tt
  unfolding check_query query_for
  default_checked request none_given =
      let valid =
        (built_queries_valid x.is_alphanumeric permits
          (get_or request.credential_type "proof-of-age") none).0 in
      rw (none_given, valid) refl

  -- Where letters and digits of ASCII count as alphanumeric, a call without a query of its own,
  -- whose tokens are drawn and whose profile has a client, is prepared: the default query passes.
  pub prepare-default :
      (request : InitTransactionRequest) (public_url : String) (draws : Draws)
      (state nonce : String) (client : Client)
      → request.dcql_query ≡ none
      → given_or request.state draws.state_token ≡ ok state
      → given_or request.nonce draws.nonce_token ≡ ok nonce
      → client_for service.jar_key
          (determine_profile request.credential_type request.profile)
          (response_uri_of public_url)
        ≡ ok client
      → (p : Tx × String) × (prepare x service request public_url draws ≡ ok p)
        × (p.0.state ≡ state)
        × (p.0.nonce ≡ nonce)
        × (p.0.client_id ≡ client.client_id)
  unfolding prepare
  prepare-default request public_url draws state nonce client q es en ec =
      rw (prepare, es, en, ec, default_checked request q) (_, refl, refl, refl, refl)
