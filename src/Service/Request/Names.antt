-- ===== src/Service/Request/Names.antt =====
-- What an answered fetch says about the transaction, and who signs it.
use ewqwe_identity.Prelude.{
  String, ◌≡◌, refl, sym, ap, ◌∙◌, inl, inr, false, Option, none, some, List, Bool-cases,
}
use ewqwe_identity.Prelude.Int.{ℤ, ltb_ℤ, div_1000}
use ewqwe_identity.Prelude.Result.{
  ok, map_err, ok_or, >>=-passed, ok_or-eq-ok, ok-injective, map_err-eq-ok,
}
use ewqwe_identity.Types.{
  AuthorizationRequestResult, ProfileId, haip, haip_x509_san_dns, annex_a, mode_to_string,
  scheme_to_string,
}
use ewqwe_identity.Json.{Json}
use ewqwe_identity.Store.Spec.{Tx, find_id}
use ewqwe_identity.Store.Interface.{TransactionStore, Refines}
use ewqwe_identity.Service.Base.{OpenId4vpService, Externals, JarKey, JweKey, JarPayload}
use ewqwe_identity.Service.Request.{
  request_by, get_authorization_request, plain_json, plain_request, signed_request, jar_payload,
}
use ewqwe_identity.Service.Request.Law.{
  NamesTransaction, plain_json-NamesTransaction, answer_for, get_authorization_request-answer_for,
}

-- A payload to sign that ties the request to its transaction, like `NamesTransaction`.
pub record NamesPayload (x : Externals) (tx : Tx) (p : JarPayload) : Type 0 where
  pub pays_client : p.client_id ≡ tx.client_id
  pub pays_scheme : p.client_id_scheme ≡ scheme_to_string tx.client_id_scheme
  pub pays_mode : p.response_mode ≡ mode_to_string tx.response_mode
  pub pays_uri : p.response_uri ≡ tx.response_uri
  pub pays_state : p.state ≡ tx.state
  pub pays_nonce : p.nonce ≡ tx.nonce
  pub pays_query : p.dcql_query ≡ x.query_to_json tx.dcql_query
  pub pays_expiry : p.expires_at_secs ≡ div_1000 tx.expires_at
  pub pays_data : p.transaction_data ≡ tx.transaction_data

module _ (x : Externals) (service : OpenId4vpService) where
  -- The body is the signature of such a payload under the service's signing key, and the key that
  -- the wallet encrypts to is configured.
  abbrev pub IsSignedFor : Tx → AuthorizationRequestResult → Type 0
  IsSignedFor tx result =
      (jar : JarKey) × (jwe : JweKey) × (p : JarPayload) × (service.jar_key ≡ some jar)
      × (service.jwe_key ≡ some jwe)
      × NamesPayload x tx p
      × (x.sign_jar p jar ≡ ok result.body)

  -- By the profile: signed for HAIP, the text of a JSON object for Annex A.
  abbrev pub IsRequestFor : Tx → ProfileId → AuthorizationRequestResult → Type 0
  IsRequestFor tx haip result = IsSignedFor tx result
  IsRequestFor tx haip_x509_san_dns result = IsSignedFor tx result
  IsRequestFor tx annex_a result =
      (request : Json) × NamesTransaction x tx request × (x.json_to_string request ≡ ok result.body)

  signed_request-IsSignedFor :
      (tx : Tx) (result : AuthorizationRequestResult)
      → signed_request x service tx ≡ ok result
      → IsSignedFor tx result
  unfolding signed_request jar_payload
  signed_request-IsSignedFor tx result h =
      let (jar, ej, h1) = >>=-passed (ok_or service.jar_key _) _ h in
      let (jwe, ee, h2) = >>=-passed (ok_or service.jwe_key _) _ h1 in
      let (jwt, es, h3) = >>=-passed (x.sign_jar (jar_payload x tx jwe) jar) _ h2 in
      (
        jar,
        jwe,
        jar_payload x tx jwe,
        ok_or-eq-ok service.jar_key _ ej,
        ok_or-eq-ok service.jwe_key _ ee,
        record {
          pays_client = refl;
          pays_scheme = refl;
          pays_mode = refl;
          pays_uri = refl;
          pays_state = refl;
          pays_nonce = refl;
          pays_query = refl;
          pays_expiry = refl;
          pays_data = refl;
        },
        es ∙ ap (λ (r : AuthorizationRequestResult). ok r.body) (ok-injective h3),
      )

  request_by-IsRequestFor :
      (tx : Tx) (profile : ProfileId) (result : AuthorizationRequestResult)
      → request_by x service tx profile ≡ ok result
      → IsRequestFor tx profile result
  unfolding request_by plain_request
  request_by-IsRequestFor tx haip result h = signed_request-IsSignedFor tx result h
  request_by-IsRequestFor tx haip_x509_san_dns result h = signed_request-IsSignedFor tx result h
  request_by-IsRequestFor tx annex_a result h =
      let (body, e, h1) = >>=-passed (map_err _ (x.json_to_string (plain_json x tx))) _ h in
      (
        plain_json x tx,
        plain_json-NamesTransaction x tx,
        map_err-eq-ok _ _ e ∙ ap (λ (r : AuthorizationRequestResult). ok r.body) (ok-injective h1),
      )

  answer_for-ok :
      (clock : ℤ) (o : Option Tx) (result : AuthorizationRequestResult)
      → answer_for x service clock o ≡ ok result
      → (tx : Tx) × (o ≡ some tx)
        × (ltb_ℤ tx.expires_at clock ≡ false)
        × IsRequestFor tx tx.profile result
  answer_for-ok clock none result h = cc h
  answer_for-ok clock (some tx) result h = elim (Bool-cases (ltb_ℤ tx.expires_at clock)) [
    | inl late ↦ cc (rw late at h)
    | inr early ↦ (tx, refl, early, request_by-IsRequestFor tx tx.profile result (rw early at h))
  ]

  -- On a valid store, a fetch that is answered is one of a stored transaction that has not expired.
  -- For a HAIP profile both keys are configured and the body is what the signing key signs of a
  -- payload with the transaction's client, mode, response URI, state, nonce, query, expiry and
  -- transaction data; for Annex A it is the text of a JSON object with all of these but the expiry.
  pub get_authorization_request-IsRequestFor :
      {S : Type 0} (ops : TransactionStore S) (Inv : S → Type 0) (txs : S → List Tx)
      (R : Refines ops Inv txs) (clock : ℤ) (id : String) (s : S)
      (result : AuthorizationRequestResult)
      → Inv s
      → (get_authorization_request x ops service clock id s).0 ≡ ok result
      → (tx : Tx) × (find_id id (txs s) ≡ some tx)
        × (ltb_ℤ tx.expires_at clock ≡ false)
        × IsRequestFor tx tx.profile result
  get_authorization_request-IsRequestFor ops Inv txs R clock id s result v h =
      answer_for-ok clock (find_id id (txs s)) result
        (sym (get_authorization_request-answer_for x service ops Inv txs R clock id s v) ∙ h)
