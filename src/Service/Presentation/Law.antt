-- ===== src/Service/Presentation/Law.antt =====
-- What a verified presentation is bound to.
use ewqwe_identity.Prelude.{String, ◌≡◌, refl, sym, ap, ◌∙◌, true, Option, some, none, List, ◌∷◌}
use ewqwe_identity.Prelude.Int.{ℤ}
use ewqwe_identity.Prelude.Text.{split, split_once}
use ewqwe_identity.Prelude.Result.{Result, ok, >>=-passed, ok-injective}
use ewqwe_identity.Json.{Json, str, obj}
use ewqwe_identity.Types.{OpenId4vpResult, VpTokenVerificationResult}
use ewqwe_identity.Store.Spec.{Tx, find_state}
use ewqwe_identity.Store.Interface.{TransactionStore, Refines}
use ewqwe_identity.SdJwt.{DecodedSdJwt}
use ewqwe_identity.SdJwt.Decode.{decode_sd_jwt_presentation}
use ewqwe_identity.SdJwt.Verify.{last_kb_jwt}
use ewqwe_identity.SdJwt.Verify.Law.{IssuedBy, HolderBound}
use ewqwe_identity.Mdoc.{Bytes}
use ewqwe_identity.Vp.{verify_vp_token_against_cas}
use ewqwe_identity.Vp.Law.{NotExpired, NonceAgrees}
use ewqwe_identity.Vp.Parse.{Readers, checks}
use ewqwe_identity.Vp.Parse.Law.{
  verify_vp_token_against_cas-sd_jwt, verify_vp_token_against_cas-replay,
}
use ewqwe_identity.Service.Base.{OpenId4vpService}
use ewqwe_identity.Service.Wallet.{get_transaction_by_state}
use ewqwe_identity.Service.Presentation.{
  get_response_jwk_thumbprint, transaction_for, nonce_in, outcome, verify_presentation,
}

transaction_for-found :
    {S : Type 0} (ops : TransactionStore S) (Inv : S → Type 0) (txs : S → List Tx)
    (R : Refines ops Inv txs) (state : String) (s : S) (tx : Tx)
    → Inv s
    → find_state state (txs s) ≡ some tx
    → transaction_for ops (some state) s ≡ some tx
unfolding transaction_for get_transaction_by_state
transaction_for-found ops Inv txs R state s tx inv there =
    rw (R.find_ok state s inv, transaction_for, get_transaction_by_state) there

module _ (json_to_string : Json → Result String String) (sha256 : String → Bytes) {S : Type 0}
    (ops : TransactionStore S) (service : OpenId4vpService) (x : Readers)
    (sd_jwt_cas : List x.jose.Cert) (mdoc_cas : List x.mdoc.Cert)
    (parse_rfc3339 : String → Option ℤ) (now : ℤ) (text id raw : String) (ps : List Json)
    (rest : List (String × List Json))
    (wrapped : x.dcql_token text ≡ some ((id, str raw ∷ ps) ∷ rest)) where
  abbrev run : Option String → Option String → S → OpenId4vpResult VpTokenVerificationResult
  run =
      verify_presentation json_to_string sha256 ops service x sd_jwt_cas mdoc_cas parse_rfc3339 now
        text

  -- On a store that refines the specification, in a valid state that holds a transaction for the
  -- `state` of the call: an SD-JWT presentation that is answered as valid was issued by a trusted
  -- issuer, its last KB-JWT, if any, is signed by the holder, a nonce that it carries is that of the
  -- transaction, it has not expired, and the answer has its decoded claims and that transaction.
  pub verify_presentation-bound :
      (Inv : S → Type 0) (txs : S → List Tx) (R : Refines ops Inv txs) (state : String)
      (client : Option String) (s : S) (tx : Tx) (d : DecodedSdJwt) (r : VpTokenVerificationResult)
      → Inv s
      → find_state state (txs s) ≡ some tx
      → decode_sd_jwt_presentation x.codec raw ≡ ok d
      → run (some state) client s ≡ ok r
      → r.is_valid ≡ true
      → (claims : Json) × IssuedBy x.jose sd_jwt_cas (split_once b'~' raw).0 claims
        × HolderBound x.jose (split_once b'~' raw).1 claims
        × NonceAgrees (some tx.nonce) d.nonce
        × NotExpired parse_rfc3339 now d.expires_at
        × (r.claims ≡ obj d.claims)
        × (r.transaction ≡ some tx)
  unfolding verify_presentation outcome
  verify_presentation-bound Inv txs R state client s tx d r inv there decodes accepted valid =
      let found = transaction_for-found ops Inv txs R state s tx inv there in
      let thumb = get_response_jwk_thumbprint json_to_string sha256 service in
      let (v, e, h) =
        >>=-passed
          (verify_vp_token_against_cas (checks x sd_jwt_cas mdoc_cas thumb parse_rfc3339 now) text
            (some tx) client)
          _ (rw found at accepted) in
      let same = ok-injective h in
      let (claims, a, b, c, f, g) =
        verify_vp_token_against_cas-sd_jwt x text id raw ps rest wrapped sd_jwt_cas mdoc_cas thumb
          parse_rfc3339 now tx client d v decodes e
          (ap (λ (w : VpTokenVerificationResult). w.is_valid) same ∙ valid) in
      (
        claims,
        a,
        b,
        c,
        f,
        ap (λ (w : VpTokenVerificationResult). w.claims) (sym same) ∙ g,
        ap (λ (w : VpTokenVerificationResult). w.transaction) (sym same),
      )

  -- On any store and in any state of it, and for every `state` of the call: an SD-JWT presentation
  -- without a KB-JWT, whose issuer is trusted and which has not expired, is answered as valid, with
  -- its decoded claims, when the call names no client.
  pub verify_presentation-replay :
      (state : Option String) (s : S) (d : DecodedSdJwt) (claims : Json)
      → decode_sd_jwt_presentation x.codec raw ≡ ok d
      → last_kb_jwt (split b'~' (split_once b'~' raw).1) ≡ none
      → IssuedBy x.jose sd_jwt_cas (split_once b'~' raw).0 claims
      → NotExpired parse_rfc3339 now d.expires_at
      → (r : VpTokenVerificationResult) × (run state none s ≡ ok r)
        × (r.is_valid ≡ true)
        × (r.claims ≡ obj d.claims)
  unfolding verify_presentation outcome
  verify_presentation-replay state s d claims decodes no_kb issued fresh =
      let tx = transaction_for ops state s in
      let (v, e, valid, same) =
        verify_vp_token_against_cas-replay x text id raw ps rest wrapped sd_jwt_cas mdoc_cas
          (get_response_jwk_thumbprint json_to_string sha256 service) parse_rfc3339 now tx d claims
          decodes no_kb issued fresh in
      (outcome tx (nonce_in x text) v, rw (e, verify_presentation) refl, valid, same)
