-- ===== src/Service/Request/Law.antt =====
-- What a wallet that fetches the authorization request is told.
use ewqwe_identity.Prelude.{
  String, ◌≡◌, refl, ap, ◌∙◌, inl, inr, Bool, true, false, Option, none, some, List, Bool-cases,
  Option-cases, if◌then◌else◌, map, opt_map,
}
use ewqwe_identity.Prelude.Int.{ℤ, ltb_ℤ}
use ewqwe_identity.Prelude.Result.{ok, err, ◌>>=◌}
use ewqwe_identity.Types.{
  OpenId4vpResult, AuthorizationRequestResult, expired_transaction, mode_to_string,
}
use ewqwe_identity.Json.{Json, str, arr}
use ewqwe_identity.Json.Map.{get, lookup, insert}
use ewqwe_identity.Store.Spec.{Tx, find_id, past}
use ewqwe_identity.Store.Interface.{TransactionStore, Refines}
use ewqwe_identity.Service.Base.{OpenId4vpService, Externals, object, assign, insert_all}
use ewqwe_identity.Service.Request.{
  fetch, request_for, request_by, get_authorization_request, plain_json, with_data, to_items,
}

-- The texts that tie a request to its transaction.
pub record NamesTransaction (x : Externals) (tx : Tx) (request : Json) : Type 0 where
  pub names_client : get request "client_id" ≡ some (str tx.client_id)
  pub names_mode : get request "response_mode" ≡ some (str (mode_to_string tx.response_mode))
  pub names_uri : get request "response_uri" ≡ some (str tx.response_uri)
  pub names_state : get request "state" ≡ some (str tx.state)
  pub names_nonce : get request "nonce" ≡ some (str tx.nonce)
  pub names_query : get request "dcql_query" ≡ some (x.query_to_json tx.dcql_query)
  pub names_data :
      get request "transaction_data"
      ≡ opt_map (λ td. arr (to_items (map str td))) tx.transaction_data

with_data-NamesTransaction :
    (x : Externals) (tx : Tx) (td : Option (List String))
    → NamesTransaction x
        (record tx { transaction_data = td })
        (plain_json x (record tx { transaction_data = td }))
unfolding plain_json get lookup object insert_all insert with_data assign
with_data-NamesTransaction x tx none = record {
  names_client = refl;
  names_mode = refl;
  names_uri = refl;
  names_state = refl;
  names_nonce = refl;
  names_query = refl;
  names_data = refl;
}
with_data-NamesTransaction x tx (some td) = record {
  names_client = refl;
  names_mode = refl;
  names_uri = refl;
  names_state = refl;
  names_nonce = refl;
  names_query = refl;
  names_data = refl;
}

-- The plain request of Annex A names its transaction's client, mode, response URI, state, nonce and
-- query, with transaction data or without, and carries the transaction data when there is any.
pub plain_json-NamesTransaction :
    (x : Externals) (tx : Tx) → NamesTransaction x tx (plain_json x tx)
plain_json-NamesTransaction x tx = with_data-NamesTransaction x tx tx.transaction_data

module _ (x : Externals) (service : OpenId4vpService) where
  abbrev pub answer_for : ℤ → Option Tx → OpenId4vpResult AuthorizationRequestResult
  answer_for clock none = err (expired_transaction "Transaction expired")
  answer_for clock (some t) =
      if ltb_ℤ t.expires_at clock
      then err (expired_transaction "Transaction expired")
      else request_by x service t t.profile

  module _ {S : Type 0} (ops : TransactionStore S) (Inv : S → Type 0) (txs : S → List Tx)
      (R : Refines ops Inv txs) where
    fetch-true :
        (id : String) (r : OpenId4vpResult Bool × S)
        → r.0 ≡ ok true
        → fetch x ops service id r ≡ (err (expired_transaction "Transaction expired"), r.1)
    unfolding fetch
    fetch-true id (ok true, s) h = refl
    fetch-true id (ok false, s) h = cc
    fetch-true id (err e, s) h = cc

    fetch-false :
        (id : String) (r : OpenId4vpResult Bool × S)
        → r.0 ≡ ok false
        → fetch x ops service id r ≡ (ops.get id r.1 >>= request_for x service, r.1)
    unfolding fetch
    fetch-false id (ok false, s) h = refl
    fetch-false id (ok true, s) h = cc
    fetch-false id (err e, s) h = cc

    -- On a valid store, a request for a transaction that is missing or outdated is refused as
    -- expired; any other is answered by the stored transaction's profile.
    pub get_authorization_request-answer_for :
        (clock : ℤ) (id : String) (s : S)
        → Inv s
        → (get_authorization_request x ops service clock id s).0
          ≡ answer_for clock (find_id id (txs s))
    unfolding get_authorization_request request_for
    get_authorization_request-answer_for clock id s v =
        let r = ops.is_expired clock id s in
        let (said, list, valid) = R.is_expired_ok clock id s v in
        elim (Option-cases (find_id id (txs s))) [
          | inl gone ↦ rw (fetch-true id r (said ∙ ap (λ o. ok (past clock o)) gone), gone) refl
          | inr (t, there) ↦ elim (Bool-cases (ltb_ℤ t.expires_at clock)) [
            | inl late ↦
                rw
                  (
                    fetch-true id r (said ∙ ap (λ o. ok (past clock o)) there ∙ ap ok late),
                    there,
                    late,
                  )
                  refl
            | inr early ↦
                let done =
                  fetch-false id r (said ∙ ap (λ o. ok (past clock o)) there ∙ ap ok early) in
                let same : txs r.1 ≡ txs s = list ∙ rw (there, early) refl in
                rw (done, there, early) (rw (R.get_ok id r.1 valid, same, there) refl)
          ]
        ]
