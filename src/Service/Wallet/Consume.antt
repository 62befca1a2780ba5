-- ===== src/Service/Wallet/Consume.antt =====
-- A transaction is consumed once.
use ewqwe_identity.Prelude.{String, ◌≡◌, refl, ap, ◌∙◌, true, false, none, some, List, is_some}
use ewqwe_identity.Prelude.Result.{ok}
use ewqwe_identity.Store.Spec.{Tx, find_state, remove}
use ewqwe_identity.Store.Spec.Lookup.{find_id-of_find_state}
use ewqwe_identity.Store.Spec.Removal.{find_state-remove}
use ewqwe_identity.Store.Interface.{TransactionStore, Refines}
use ewqwe_identity.Service.Wallet.{consume, consume_transaction_by_state, get_nonce_by_state}

module _ {S : Type 0} (ops : TransactionStore S) (Inv : S → Type 0) (txs : S → List Tx)
    (R : Refines ops Inv txs) where
  consume_missing :
      (k : String) (s : S)
      → Inv s
      → find_state k (txs s) ≡ none
      → consume_transaction_by_state ops k s ≡ (ok false, s)
  unfolding consume_transaction_by_state consume
  consume_missing k s v gone = rw (R.find_ok k s v, gone) refl

  consume_found :
      (k : String) (s : S) (t : Tx)
      → Inv s
      → find_state k (txs s) ≡ some t
      → consume_transaction_by_state ops k s ≡ ops.delete t.id s
  unfolding consume_transaction_by_state consume
  consume_found k s t v there = rw (R.find_ok k s v, there) refl

  -- On a valid store, consuming a transaction by its `state` answers that it was there and removes
  -- just it; after that no nonce is known for the `state`, and consuming it again answers that
  -- nothing was there and changes nothing.
  pub consume_transaction_by_state-once :
      (k : String) (s : S) (t : Tx)
      → Inv s
      → find_state k (txs s) ≡ some t
      → ((consume_transaction_by_state ops k s).0 ≡ ok true)
        × (txs (consume_transaction_by_state ops k s).1 ≡ remove t.id (txs s))
        × (get_nonce_by_state ops k (consume_transaction_by_state ops k s).1 ≡ ok none)
        × (consume_transaction_by_state ops k (consume_transaction_by_state ops k s).1
            ≡ (ok false, (consume_transaction_by_state ops k s).1))
  unfolding get_nonce_by_state
  consume_transaction_by_state-once k s t v there =
      let (said, list, valid) = R.delete_ok t.id s v in
      let s' = (ops.delete t.id s).1 in
      let d = R.unique s v in
      let gone : find_state k (txs s') ≡ none =
        ap (find_state k) list ∙ find_state-remove k (txs s) d there in
      rw (consume_found k s t v there) (
        said ∙ ap (λ o. ok (is_some o)) (find_id-of_find_state k (txs s) d.unique_ids there),
        list,
        rw (R.find_ok k s' valid, gone) refl,
        consume_missing k s' valid gone,
      )
