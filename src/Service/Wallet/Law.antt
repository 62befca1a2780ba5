-- ===== src/Service/Wallet/Law.antt =====
-- What the wallet sends is what the poller reads.
use ewqwe_identity.Prelude.{
  String, ◌≡◌, refl, ap, ◌∙◌, false, Option, none, some, List, eq_refl, ◌<>◌,
}
use ewqwe_identity.Prelude.Int.{ℤ, ltb_ℤ}
use ewqwe_identity.Prelude.Result.{ok, err}
use ewqwe_identity.Types.{OpenId4vpResult, OpenId4vpResponse, WalletAuthorizationError, bad_request}
use ewqwe_identity.Store.Spec.{Tx, find_id, find_state, KeepsKeys}
use ewqwe_identity.Store.Spec.Lookup.{modify_state-none}
use ewqwe_identity.Store.Spec.Overwrite.{find_id-modify_state}
use ewqwe_identity.Store.Interface.{TransactionStore, Refines, done}
use ewqwe_identity.Service.Base.{OpenId4vpService, Externals}
use ewqwe_identity.Service.Wallet.{
  receive, refuse, read_response, must_exist, respond, handle_wallet_response,
  get_transaction_status, status_for, received_status,
}
use ewqwe_identity.Service.Wallet.Status.{get_transaction_status-answer_for}

pub receive-KeepsKeys : (w : OpenId4vpResponse) → KeepsKeys (receive w)
receive-KeepsKeys w = record { keeps_id = λ t. refl; keeps_state = λ t. refl }

pub refuse-KeepsKeys : (e : WalletAuthorizationError) → KeepsKeys (refuse e)
refuse-KeepsKeys e = record { keeps_id = λ t. refl; keeps_state = λ t. refl }

module _ {S : Type 0} where
  must_exist-some :
      (state : String) (r : OpenId4vpResult (Option (Unit {0})) × S)
      → r.0 ≡ ok (some tt)
      → must_exist state r ≡ (ok tt, r.1)
  unfolding must_exist
  must_exist-some state (ok (some u), s) h = refl
  must_exist-some state (ok none, s) h = cc
  must_exist-some state (err e, s) h = cc

  must_exist-none :
      (state : String) (r : OpenId4vpResult (Option (Unit {0})) × S)
      → r.0 ≡ ok none
      → must_exist state r ≡ (err (bad_request ("No transaction found for state: " <> state)), r.1)
  unfolding must_exist
  must_exist-none state (ok none, s) h = refl
  must_exist-none state (ok (some u), s) h = cc
  must_exist-none state (err e, s) h = cc

module _ {S : Type 0} (ops : TransactionStore S) (Inv : S → Type 0) (txs : S → List Tx)
    (R : Refines ops Inv txs) where
  -- A change by `state` that must find its transaction.
  change_found :
      (k : String) (f : Tx → Tx) (s : S) {t : Tx}
      → Inv s
      → KeepsKeys f
      → find_state k (txs s) ≡ some t
      → ((must_exist k (ops.update_by_state k f s)).0 ≡ ok tt)
        × (find_id t.id (txs (must_exist k (ops.update_by_state k f s)).1) ≡ some (f t))
        × Inv (must_exist k (ops.update_by_state k f s)).1
  change_found k f s {t} v keeps there =
      let r = ops.update_by_state k f s in
      let (said, list, valid) = R.update_by_state_ok k f s v keeps in
      let answer = must_exist-some k r (said ∙ ap (λ o. ok (done o)) there) in
      let here : find_id t.id (txs r.1) ≡ some (f t) =
        ap (find_id t.id) list
        ∙ find_id-modify_state k f (txs s) t.id keeps (R.unique s v).unique_ids there
        ∙ rw (eq_refl t.id) refl in
      rw answer (refl, here, valid)

  change_missing :
      (k : String) (f : Tx → Tx) (s : S)
      → Inv s
      → KeepsKeys f
      → find_state k (txs s) ≡ none
      → ((must_exist k (ops.update_by_state k f s)).0
          ≡ err (bad_request ("No transaction found for state: " <> k)))
        × (txs (must_exist k (ops.update_by_state k f s)).1 ≡ txs s)
        × Inv (must_exist k (ops.update_by_state k f s)).1
  change_missing k f s v keeps gone =
      let r = ops.update_by_state k f s in
      let (said, list, valid) = R.update_by_state_ok k f s v keeps in
      let answer = must_exist-none k r (said ∙ ap (λ o. ok (done o)) gone) in
      rw answer (refl, list ∙ modify_state-none k f (txs s) gone, valid)

  -- When a wallet's response can be read and its `state` is that of a stored transaction,
  -- `handle_wallet_response` accepts it, and until the transaction expires a poll by its id answers
  -- "received" with that response and with the transaction's own nonce; the store stays valid.
  pub handle_wallet_response-get_transaction_status :
      (x : Externals) (service : OpenId4vpService) (given : Option OpenId4vpResponse)
      (jwe fallback : Option String) (s : S) (w : OpenId4vpResponse) (t : Tx) (clock now : ℤ)
      → Inv s
      → read_response x service given jwe fallback ≡ ok w
      → find_state w.state (txs s) ≡ some t
      → ltb_ℤ t.expires_at clock ≡ false
      → ((handle_wallet_response ops x service given jwe fallback s).0 ≡ ok tt)
        × ((get_transaction_status ops clock now t.id
              (handle_wallet_response ops x service given jwe fallback s).1).0
            ≡ ok (received_status t w))
        × Inv (handle_wallet_response ops x service given jwe fallback s).1
  unfolding handle_wallet_response respond status_for received_status
  handle_wallet_response-get_transaction_status x service given jwe fallback s w t clock now v read
        there early =
      let (said, here, valid) = change_found w.state (receive w) s v (receive-KeepsKeys w) there in
      let s' = (must_exist w.state (ops.update_by_state w.state (receive w) s)).1 in
      let (polled, kept, still) =
        get_transaction_status-answer_for ops Inv txs R clock now t.id s' valid in
      rw read (said, polled ∙ rw (here, early) refl, valid)

  -- A response whose `state` no stored transaction has is refused as a bad request, and no stored
  -- transaction changes.
  pub handle_wallet_response-unknown :
      (x : Externals) (service : OpenId4vpService) (given : Option OpenId4vpResponse)
      (jwe fallback : Option String) (s : S) (w : OpenId4vpResponse)
      → Inv s
      → read_response x service given jwe fallback ≡ ok w
      → find_state w.state (txs s) ≡ none
      → ((handle_wallet_response ops x service given jwe fallback s).0
          ≡ err (bad_request ("No transaction found for state: " <> w.state)))
        × (txs (handle_wallet_response ops x service given jwe fallback s).1 ≡ txs s)
  unfolding handle_wallet_response respond
  handle_wallet_response-unknown x service given jwe fallback s w v read gone =
      let (said, same, valid) = change_missing w.state (receive w) s v (receive-KeepsKeys w) gone in
      rw read (said, same)
