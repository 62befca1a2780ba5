-- ===== src/Service/Reachable/Law.antt =====
-- Every reachable store is valid, and a transaction's binding never changes.
use mathlib.Core.Path.{subst}
use ewqwe_identity.Prelude.{
  String, ◌≡◌, inl, inr, refl, sym, ap, ◌∙◌, Bool, true, false, Option, none, some, List,
  Bool-cases, get_or,
}
use ewqwe_identity.Prelude.Int.{ℤ}
use ewqwe_identity.Prelude.Result.{ok, err}
use ewqwe_identity.Types.{OpenId4vpResult, OpenId4vpResponse, verified}
use ewqwe_identity.Store.Spec.{Tx, KeepsKeys, Unique, find_id, past}
use ewqwe_identity.Store.Interface.{TransactionStore, Refines, set_status}
use ewqwe_identity.Store.Memory.Law.{set_status-KeepsKeys}
use ewqwe_identity.Service.Base.{OpenId4vpService, Externals}
use ewqwe_identity.Service.Init.Law.{IsPrepared, init_transaction-IsStored}
use ewqwe_identity.Service.Request.{fetch, get_authorization_request}
use ewqwe_identity.Service.Wallet.{
  receive, refuse, must_exist, respond, read_response, handle_wallet_response, handle_wallet_error,
  poll, get_transaction_status, mark_transaction_verified, consume, consume_transaction_by_state,
}
use ewqwe_identity.Service.Wallet.Law.{receive-KeepsKeys, refuse-KeepsKeys}
use ewqwe_identity.Service.Reachable as Calls
use ewqwe_identity.Service.Reachable.{Call, run, Reaches, stop, step}
use ewqwe_identity.Service.Reachable.Descent.{
  IsBound, Descends, Descends-same, Descends-put, Descends-remove, Descends-modify_id,
  Descends-modify_state,
}

must_exist-state :
    {S : Type 0} (k : String) (r : OpenId4vpResult (Option (Unit {0})) × S)
    → (must_exist k r).1 ≡ r.1
unfolding must_exist
must_exist-state k (ok (some u), s) = refl
must_exist-state k (ok none, s) = refl
must_exist-state k (err e, s) = refl

-- The transactions that a call makes.
abbrev pub MadeBy : Externals → OpenId4vpService → Call → Tx → Type 0
MadeBy x service (Calls.init request public_url draws) t =
    (url_scheme : String) × IsPrepared x service request public_url draws t url_scheme
MadeBy x service _ t = ⊥

module _ (x : Externals) (service : OpenId4vpService) {S : Type 0} (ops : TransactionStore S)
    (Inv : S → Type 0) (txs : S → List Tx) (R : Refines ops Inv txs) where
  poll-state : (now : ℤ) (id : String) (r : OpenId4vpResult Bool × S) → (poll ops now id r).1 ≡ r.1
  unfolding poll
  poll-state now id (ok true, s) = refl
  poll-state now id (ok false, s) = refl
  poll-state now id (err e, s) = refl

  fetch-state : (id : String) (r : OpenId4vpResult Bool × S) → (fetch x ops service id r).1 ≡ r.1
  unfolding fetch
  fetch-state id (ok true, s) = refl
  fetch-state id (ok false, s) = refl
  fetch-state id (err e, s) = refl

  -- A change that keeps the store valid and every binding.
  abbrev Sound : (Tx → Type 0) → S → S → Type 0
  Sound New s s' = Inv s' × Descends New (txs s) (txs s')

  module _ (New : Tx → Type 0) (s : S) (v : Inv s) where
    Sound-expiry : (clock : ℤ) (id : String) → Sound New s (ops.is_expired clock id s).1
    Sound-expiry clock id =
        let (said, list, valid) = R.is_expired_ok clock id s v in
        (
          valid,
          elim (Bool-cases (past clock (find_id id (txs s)))) [
            | inl late ↦ Descends-remove New id (txs s) _ (R.unique s v) (list ∙ rw late refl)
            | inr early ↦ Descends-same New (txs s) _ (list ∙ rw early refl)
          ],
        )

    Sound-change :
        (k : String) (f : Tx → Tx)
        → KeepsKeys f
        → ((t : Tx) → IsBound t (f t))
        → Sound New s (must_exist k (ops.update_by_state k f s)).1
    Sound-change k f keeps binds =
        let (said, list, valid) = R.update_by_state_ok k f s v keeps in
        subst (Sound New s) (sym (must_exist-state k (ops.update_by_state k f s)))
          (valid, Descends-modify_state New f keeps binds k (txs s) _ (R.unique s v) list)

    Sound-respond : (r : OpenId4vpResult OpenId4vpResponse) → Sound New s (respond ops r s).1
    unfolding respond
    Sound-respond (ok w) = Sound-change w.state (receive w) (receive-KeepsKeys w) (λ t. record {
      same_id = refl;
      same_state = refl;
      same_nonce = refl;
      same_client = refl;
      same_query = refl;
      same_expiry = refl;
    })
    Sound-respond (err e) = (v, Descends-same New (txs s) (txs s) refl)

    Sound-consume : (r : OpenId4vpResult (Option Tx)) → Sound New s (consume ops r s).1
    unfolding consume
    Sound-consume (err e) = (v, Descends-same New (txs s) (txs s) refl)
    Sound-consume (ok none) = (v, Descends-same New (txs s) (txs s) refl)
    Sound-consume (ok (some t)) =
        let (said, list, valid) = R.delete_ok t.id s v in
        (valid, Descends-remove New t.id (txs s) _ (R.unique s v) list)

  -- Every call keeps the store valid, and each transaction that is found after it is the one that
  -- the call started or has the id, `state`, nonce, client, query and expiry of the transaction
  -- that was found under the same id before.
  pub run-Sound : (c : Call) (s : S) → Inv s → Sound (MadeBy x service c) s (run x service ops c s)
  unfolding run get_authorization_request handle_wallet_response handle_wallet_error
      get_transaction_status mark_transaction_verified consume_transaction_by_state
  run-Sound (Calls.init request public_url draws) s v =
      elim (init_transaction-IsStored x service request public_url draws ops Inv txs R s v) [
        | inl (tx, scheme, done) ↦
            (done.valid, Descends-put _ tx (txs s) _ done.stored (scheme, done.prepared))
        | inr (e, failed) ↦
            let same = ap (λ (r : _ × S). r.1) failed in
            (subst Inv (sym same) v, Descends-same _ (txs s) _ (ap txs same))
      ]
  run-Sound (Calls.fetch clock id) s v =
      subst (Sound _ s) (sym (fetch-state id (ops.is_expired clock id s)))
        (Sound-expiry _ s v clock id)
  run-Sound (Calls.respond given jwe fallback) s v =
      Sound-respond _ s v (read_response x service given jwe fallback)
  run-Sound (Calls.wallet_error e) s v =
      Sound-change _ s v (get_or e.state "") (refuse e) (refuse-KeepsKeys e) (λ t. record {
        same_id = refl;
        same_state = refl;
        same_nonce = refl;
        same_client = refl;
        same_query = refl;
        same_expiry = refl;
      })
  run-Sound (Calls.status clock now id) s v =
      subst (Sound _ s) (sym (poll-state now id (ops.is_expired clock id s)))
        (Sound-expiry _ s v clock id)
  run-Sound (Calls.mark_verified id) s v =
      let (said, list, valid) = R.update_status_ok id verified s v in
      (
        valid,
        Descends-modify_id _ (set_status verified) (set_status-KeepsKeys verified)
            (λ t. record {
              same_id = refl;
              same_state = refl;
              same_nonce = refl;
              same_client = refl;
              same_query = refl;
              same_expiry = refl;
            })
            id (txs s) _ list,
      )
  run-Sound (Calls.consume state) s v = Sound-consume _ s v (ops.find_by_state state s)

  -- Whatever calls are made, a valid store stays valid: no id and no `state` ever stands twice.
  pub Reaches-Unique : (s s' : S) → Inv s → Reaches x service ops s s' → Inv s' × Unique (txs s')
  Reaches-Unique s s' v (stop _) = (v, R.unique s v)
  Reaches-Unique s s' v (step c _ rest) =
      Reaches-Unique (run x service ops c s) s' (run-Sound c s v).0 rest
