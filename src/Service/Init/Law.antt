-- ===== src/Service/Init/Law.antt =====
-- What `init_transaction` stores and answers.
use mathlib.Core.Path.{subst}
use ewqwe_identity.Prelude.{
  String, ◌≡◌, ◌<>◌, ◌⊎◌, inl, inr, refl, none, some, get_or, List, Bool-cases,
}
use ewqwe_identity.Prelude.Int.{add_i64, times_1000}
use ewqwe_identity.Prelude.Result.{ok, err, >>=-passed, ok-injective}
use ewqwe_identity.Types.{
  OpenId4vpError, OpenId4vpResult, InitTransactionRequest, InitTransactionResponse, internal,
  pending, default_client_metadata,
}
use ewqwe_identity.Config.{determine_profile}
use ewqwe_identity.Store.Spec.{Tx, put, clash}
use ewqwe_identity.Store.Interface.{TransactionStore, Refines}
use ewqwe_identity.Service.Base.{OpenId4vpService, Externals}
use ewqwe_identity.Service.Init.{
  Draws, client_for, given_or, query_for, response_uri_of, default_metadata, check_query, prepare,
  response_for, answer, store_prepared, init_transaction,
}

-- What a prepared transaction is, field by field, and the checks that it has passed.
pub record IsPrepared (x : Externals) (service : OpenId4vpService)
    (request : InitTransactionRequest) (public_url : String) (draws : Draws) (tx : Tx)
    (url_scheme : String) : Type 0 where
  pub has_id : tx.id ≡ draws.uuid
  pub has_state : given_or request.state draws.state_token ≡ ok tx.state
  pub has_nonce : given_or request.nonce draws.nonce_token ≡ ok tx.nonce
  pub has_expiry : tx.expires_at ≡ add_i64 draws.now (times_1000 service.ttl_secs)
  pub is_pending : tx.status ≡ pending
  pub was_created : tx.created_at ≡ draws.now
  pub no_response : tx.wallet_response ≡ none
  pub no_wallet_error : tx.wallet_error ≡ none
  pub no_verification : tx.verification_result ≡ none
  pub no_error : tx.error_message ≡ none
  pub has_uri : tx.response_uri ≡ public_url <> "/ewqwe_api/openid4vp/direct_post"
  pub has_metadata :
      tx.client_metadata
      ≡ some (
          get_or request.client_metadata
            (record default_client_metadata { logo_uri = some (public_url <> "/logo.png") }))
  pub has_data : tx.transaction_data ≡ request.transaction_data
  pub has_query : tx.dcql_query ≡ query_for request
  pub query_checked : check_query x service tx.dcql_query ≡ ok tt
  pub has_profile : tx.profile ≡ determine_profile request.credential_type request.profile
  pub has_client :
      client_for service.jar_key tx.profile tx.response_uri
      ≡ ok (record {
        client_id = tx.client_id;
        client_id_scheme = tx.client_id_scheme;
        response_mode = tx.response_mode;
        url_scheme = url_scheme;
      })

module _ (x : Externals) (service : OpenId4vpService) (request : InitTransactionRequest)
    (public_url : String) (draws : Draws) where
  pub prepare-IsPrepared :
      (p : Tx × String)
      → prepare x service request public_url draws ≡ ok p
      → IsPrepared x service request public_url draws p.0 p.1
  unfolding prepare response_uri_of default_metadata
  prepare-IsPrepared p h =
      let (state, es, h1) = >>=-passed (given_or request.state draws.state_token) _ h in
      let (nonce, en, h2) = >>=-passed (given_or request.nonce draws.nonce_token) _ h1 in
      let profile = determine_profile request.credential_type request.profile in
      let (client, ec, h3) =
        >>=-passed (client_for service.jar_key profile (response_uri_of public_url)) _ h2 in
      let (u, eq, h4) = >>=-passed (check_query x service (query_for request)) _ h3 in
      subst (λ q. IsPrepared x service request public_url draws q.0 q.1) (ok-injective h4)
        (record {
          has_id = refl;
          has_state = es;
          has_nonce = en;
          has_expiry = refl;
          is_pending = refl;
          was_created = refl;
          no_response = refl;
          no_wallet_error = refl;
          no_verification = refl;
          no_error = refl;
          has_uri = refl;
          has_metadata = refl;
          has_data = refl;
          has_query = refl;
          query_checked = eq;
          has_profile = refl;
          has_client = ec;
        })

  module _ {S : Type 0} (ops : TransactionStore S) (Inv : S → Type 0) (txs : S → List Tx)
      (R : Refines ops Inv txs) where
    abbrev Answer : Type 0
    Answer = OpenId4vpResult InitTransactionResponse × S

    answer-ok :
        (r : InitTransactionResponse) (a : OpenId4vpResult (Unit {0}) × S)
        → a.0 ≡ ok tt
        → answer x service ops r a ≡ (ok r, a.1)
    unfolding answer
    answer-ok r (ok u, s) h = refl
    answer-ok r (err e, s) h = cc

    -- A prepared transaction was stored and answered.
    pub record IsStored (s : S) (tx : Tx) (url_scheme : String) (r : Answer) : Type 0 where
      pub prepared : IsPrepared x service request public_url draws tx url_scheme
      pub answered : r.0 ≡ ok (response_for x service public_url tx url_scheme)
      pub stored : txs r.1 ≡ put tx (txs s)
      pub valid : Inv r.1

    store_lem :
        (p : OpenId4vpResult (Tx × String)) (s : S)
        → Inv s
        → ((q : Tx × String) → p ≡ ok q → IsPrepared x service request public_url draws q.0 q.1)
        → ((tx : Tx) × (url_scheme : String) × IsStored s tx url_scheme
              (store_prepared x service ops public_url p s))
          ⊎ ((e : OpenId4vpError) × (store_prepared x service ops public_url p s ≡ (err e, s)))
    unfolding store_prepared answer
    store_lem (err e) s v ready = inr (e, refl)
    store_lem (ok (tx, url_scheme)) s v ready = elim (Bool-cases (clash tx (txs s))) [
      | inl taken ↦
          let (msg, refused) = R.set_clash tx s v taken in inr (internal msg, rw refused refl)
      | inr apart ↦
          let (said, list, valid) = R.set_ok tx s v apart in
          let told =
            answer-ok (response_for x service public_url tx url_scheme) (ops.set tx s) said in
          inl (
            tx,
            url_scheme,
            rw told (record {
              prepared = ready (tx, url_scheme) refl;
              answered = refl;
              stored = list;
              valid = valid;
            }),
          )
    ]

    -- On a valid store `init_transaction` either stores one pending transaction and answers with its
    -- links, or it errs and changes nothing. Each field of the transaction is as `IsPrepared` says:
    -- given by the request or drawn, with the profile that is determined for the request, the client
    -- of that profile, the server's own response URI, the request's metadata or the default with the
    -- server's logo, the request's transaction data, and no answer yet.
    pub init_transaction-IsStored :
        (s : S)
        → Inv s
        → ((tx : Tx) × (url_scheme : String) × IsStored s tx url_scheme
              (init_transaction x service ops request public_url draws s))
          ⊎ ((e : OpenId4vpError) × (init_transaction x service ops request public_url draws s
                ≡ (err e, s)))
    unfolding init_transaction
    init_transaction-IsStored s v =
        store_lem (prepare x service request public_url draws) s v prepare-IsPrepared
