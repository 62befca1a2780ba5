-- ===== src/Service/Presentation/Tests.antt =====
-- Presentations against the in-memory store.
use ewqwe_identity.Prelude.{◌≡◌, refl, true, some, none, []}
use ewqwe_identity.Prelude.Int.{pos}
use ewqwe_identity.Prelude.Text.{split_once}
use ewqwe_identity.Prelude.Result.{ok}
use ewqwe_identity.Json.{Json, obj}
use ewqwe_identity.Types.{VpTokenVerificationResult}
use ewqwe_identity.Store.Spec.{find_state}
use ewqwe_identity.Store.Memory.{in_memory, find_by_state}
use ewqwe_identity.Store.Memory.Law.{IsValid, held, in_memory-Refines}
use ewqwe_identity.Store.Tests.{tx_1, store_1, store_1-IsValid}
use ewqwe_identity.SdJwt.Tests.{
  jose, bound, unbound, claims_1, decoded_as, decodes_bound, decodes_unbound, payload_1,
}
use ewqwe_identity.SdJwt.Verify.Law.{IssuedBy, HolderBound}
use ewqwe_identity.Vp.Law.{NotExpired, NonceAgrees}
use ewqwe_identity.Vp.Parse.Tests.{readers_of, no_kb_jwt, issued}
use ewqwe_identity.Service.Tests.{service}
use ewqwe_identity.Service.Presentation.{verify_presentation}
use ewqwe_identity.Service.Presentation.Law.{verify_presentation-bound, verify_presentation-replay}

abbrev result_1 : VpTokenVerificationResult
result_1 = record {
  is_valid = true;
  signature_valid = true;
  not_expired = true;
  issuer_trusted = true;
  errors = [];
  warnings = [];
  claims = obj claims_1;
  doc_type = "pid";
  namespace = "pid";
  credential_id = some "pid";
  server_nonce = some "nonce-1";
  presentation_nonce = none;
  transaction = some tx_1;
}

found_1 : find_state "state-1" (held store_1) ≡ some tx_1
unfolding find_state
found_1 = refl

accepts_bound :
    verify_presentation
      (λ v. ok "json")
      (λ t. [])
      in_memory
      service
      (readers_of bound)
      []
      []
      (λ t. none)
      (pos 0)
      "{}"
      (some "state-1")
      none
      store_1
    ≡ ok result_1
unfolding verify_presentation find_by_state
accepts_bound = refl

verify_presentation-bound_example :
    (claims : Json) × IssuedBy jose [] (split_once b'~' bound).0 claims
    × HolderBound jose (split_once b'~' bound).1 claims
    × NonceAgrees (some tx_1.nonce) (some "nonce-1")
    × NotExpired (λ t. none) (pos 0) none
    × (result_1.claims ≡ obj claims_1)
    × (result_1.transaction ≡ some tx_1)
verify_presentation-bound_example =
    verify_presentation-bound (λ v. ok "json") (λ t. []) in_memory service (readers_of bound) [] []
      (λ t. none) (pos 0) "{}" "pid" bound [] [] refl IsValid held in_memory-Refines "state-1" none
      store_1 tx_1 (decoded_as (some "nonce-1")) result_1 store_1-IsValid found_1 decodes_bound
      accepts_bound refl

verify_presentation-replay_example :
    (r : VpTokenVerificationResult) × (verify_presentation
        (λ v. ok "json")
        (λ t. [])
        in_memory
        service
        (readers_of unbound)
        []
        []
        (λ t. none)
        (pos 0)
        "{}"
        (some "state-1")
        none
        store_1
      ≡ ok r)
    × (r.is_valid ≡ true)
    × (r.claims ≡ obj claims_1)
verify_presentation-replay_example =
    verify_presentation-replay (λ v. ok "json") (λ t. []) in_memory service (readers_of unbound) []
      [] (λ t. none) (pos 0) "{}" "pid" unbound [] [] refl (some "state-1") store_1
      (decoded_as none) payload_1 decodes_unbound no_kb_jwt issued tt
