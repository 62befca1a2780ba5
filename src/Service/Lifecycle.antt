-- ===== src/Service/Lifecycle.antt =====
-- From the start of a transaction to the wallet's fetch and the first poll.

use ewqwe_identity.Prelude.{
  String, ◌≡◌, inl, inr, refl, sym, ap, ◌∙◌, false, Option, none, some, List, eq_refl,
}
use ewqwe_identity.Prelude.Int.{ℤ, ltb_ℤ, add_i64, sub_i64, times_1000, div_1000}
use ewqwe_identity.Prelude.Result.{ok, ok-injective}
use ewqwe_identity.Types.{
  InitTransactionRequest, InitTransactionResponse, pending, TransactionStatusResult,
  OpenId4vpResponse,
}
use ewqwe_identity.Store.Spec.{Tx, find_id}
use ewqwe_identity.Store.Spec.Lookup.{find_id-put}
use ewqwe_identity.Store.Interface.{TransactionStore, Refines}
use ewqwe_identity.Service.Base.{OpenId4vpService, Externals}
use ewqwe_identity.Service.Init.{Draws, response_for, init_transaction}
use ewqwe_identity.Service.Init.Law.{IsPrepared, init_transaction-IsStored}
use ewqwe_identity.Service.Request.{get_authorization_request, request_by}
use ewqwe_identity.Service.Request.Law.{get_authorization_request-answer_for}
use ewqwe_identity.Service.Wallet.{get_transaction_status, status_for, open_status}
use ewqwe_identity.Service.Wallet.Status.{get_transaction_status-answer_for}

-- Pending, with the time left and nothing else.
abbrev pub pending_status : ℤ → ℤ → TransactionStatusResult
pending_status expires_at now = record {
  status = pending;
  expires_in = some (div_1000 (sub_i64 expires_at now));
  authorization_response = none;
  nonce = none;
  wallet_error = none;
  error_message = none;
  transaction_data = none;
}

open_status-pending :
    (now : ℤ) (tx : Tx) (wr : Option OpenId4vpResponse)
    → tx.status ≡ pending
    → tx.error_message ≡ none
    → status_for now tx tx.status wr ≡ pending_status tx.expires_at now
unfolding status_for open_status
open_status-pending now tx wr e n = rw (e, n) refl

module _ (x : Externals) (service : OpenId4vpService) (request : InitTransactionRequest)
    (public_url : String) (draws : Draws) {S : Type 0} (ops : TransactionStore S) (Inv : S → Type 0)
    (txs : S → List Tx) (R : Refines ops Inv txs) where
  abbrev Started : S → InitTransactionResponse → Tx → Type 0
  Started s resp tx =
      (url_scheme : String) × IsPrepared x service request public_url draws tx url_scheme
      × (resp ≡ response_for x service public_url tx url_scheme)
      × (find_id draws.uuid (txs (init_transaction x service ops request public_url draws s).1)
          ≡ some tx)
      × Inv (init_transaction x service ops request public_url draws s).1

  started :
      (s : S) (resp : InitTransactionResponse)
      → Inv s
      → (init_transaction x service ops request public_url draws s).0 ≡ ok resp
      → (tx : Tx) × Started s resp tx
  started s resp v h =
      elim (init_transaction-IsStored x service request public_url draws ops Inv txs R s v) [
        | inl (tx, url_scheme, done) ↦
            let p = done.prepared in
            (
              tx,
              (
                url_scheme,
                p,
                ok-injective (sym h ∙ done.answered),
                ap (find_id draws.uuid) done.stored
                    ∙ find_id-put tx (txs s) draws.uuid
                    ∙ rw (p.has_id, eq_refl draws.uuid) refl,
                done.valid,
              ),
            )
        | inr (e, failed) ↦ cc (h, ap (λ (r : _ × S). r.0) failed)
      ]

  -- When `init_transaction` on a valid store answers, the answer carries the drawn id, and until
  -- the transaction's lifetime is over, a poll by that id answers "pending" with the time left.
  pub init_transaction-get_transaction_status :
      (s : S) (resp : InitTransactionResponse) (clock now : ℤ)
      → Inv s
      → (init_transaction x service ops request public_url draws s).0 ≡ ok resp
      → ltb_ℤ (add_i64 draws.now (times_1000 service.ttl_secs)) clock ≡ false
      → (resp.transaction_id ≡ draws.uuid)
        × ((get_transaction_status ops clock now resp.transaction_id
              (init_transaction x service ops request public_url draws s).1).0
            ≡ ok (pending_status (add_i64 draws.now (times_1000 service.ttl_secs)) now))
  unfolding response_for
  init_transaction-get_transaction_status s resp clock now v h early =
      let (tx, (scheme, p, told, there, valid)) = started s resp v h in
      let s' = (init_transaction x service ops request public_url draws s).1 in
      let (polled, list, still) =
        get_transaction_status-answer_for ops Inv txs R clock now draws.uuid s' valid in
      let id : resp.transaction_id ≡ draws.uuid =
        ap (λ (r : InitTransactionResponse). r.transaction_id) told ∙ p.has_id in
      let live : ltb_ℤ tx.expires_at clock ≡ false = ap (λ e. ltb_ℤ e clock) p.has_expiry ∙ early in
      (
        id,
        rw id (
            polled
            ∙ rw (there, live) refl
            ∙ ap ok (open_status-pending now tx tx.wallet_response p.is_pending p.no_error)
            ∙ ap (λ e. ok (pending_status e now)) p.has_expiry),
      )

  -- When `init_transaction` on a valid store answers, then until the transaction's lifetime is over
  -- a fetch by the drawn id gets the request of a transaction of which each field is what the call
  -- makes it, as `IsPrepared` says, in the form of the profile that was determined for it.
  pub init_transaction-get_authorization_request :
      (s : S) (resp : InitTransactionResponse) (clock : ℤ)
      → Inv s
      → (init_transaction x service ops request public_url draws s).0 ≡ ok resp
      → ltb_ℤ (add_i64 draws.now (times_1000 service.ttl_secs)) clock ≡ false
      → (tx : Tx) × (url_scheme : String) × IsPrepared x service request public_url draws tx
          url_scheme
        × ((get_authorization_request x ops service clock draws.uuid
              (init_transaction x service ops request public_url draws s).1).0
            ≡ request_by x service tx tx.profile)
  init_transaction-get_authorization_request s resp clock v h early =
      let (tx, (scheme, p, told, there, valid)) = started s resp v h in
      let s' = (init_transaction x service ops request public_url draws s).1 in
      let live : ltb_ℤ tx.expires_at clock ≡ false = ap (λ e. ltb_ℤ e clock) p.has_expiry ∙ early in
      (
        tx,
        scheme,
        p,
        get_authorization_request-answer_for x service ops Inv txs R clock draws.uuid s' valid
            ∙ rw (there, live) refl,
      )
