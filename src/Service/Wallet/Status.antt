-- ===== src/Service/Wallet/Status.antt =====
-- `get_transaction_status` answers from what the store holds.
use ewqwe_identity.Prelude.{
  String, ◌≡◌, refl, ap, ◌∙◌, inl, inr, Bool, true, false, Option, none, some, List, Bool-cases,
  Option-cases, if◌then◌else◌,
}
use ewqwe_identity.Prelude.Int.{ℤ, ltb_ℤ}
use ewqwe_identity.Prelude.Result.{ok, err, ◌>>=◌}
use ewqwe_identity.Types.{OpenId4vpResult, TransactionStatusResult}
use ewqwe_identity.Store.Spec.{Tx, find_id, remove, past}
use ewqwe_identity.Store.Interface.{TransactionStore, Refines}
use ewqwe_identity.Service.Wallet.{
  get_transaction_status, poll, expired_status, status_for, status_of,
}

-- A missing or outdated transaction is expired; any other is answered by its status.
abbrev pub answer_for : ℤ → ℤ → Option Tx → TransactionStatusResult
answer_for clock now none = expired_status
answer_for clock now (some t) =
    if ltb_ℤ t.expires_at clock then expired_status else status_for now t t.status t.wallet_response

module _ {S : Type 0} (ops : TransactionStore S) (Inv : S → Type 0) (txs : S → List Tx)
    (R : Refines ops Inv txs) where
  poll-true :
      (now : ℤ) (id : String) (r : OpenId4vpResult Bool × S)
      → r.0 ≡ ok true
      → poll ops now id r ≡ (ok expired_status, r.1)
  unfolding poll
  poll-true now id (ok true, s) h = refl
  poll-true now id (ok false, s) h = cc
  poll-true now id (err e, s) h = cc

  poll-false :
      (now : ℤ) (id : String) (r : OpenId4vpResult Bool × S)
      → r.0 ≡ ok false
      → poll ops now id r ≡ (ops.get id r.1 >>= status_of now, r.1)
  unfolding poll
  poll-false now id (ok false, s) h = refl
  poll-false now id (ok true, s) h = cc
  poll-false now id (err e, s) h = cc

  -- On a valid store `get_transaction_status` never errs: it answers "expired" for a transaction
  -- that is missing or outdated at the first reading of the clock, and else by the transaction's
  -- status; it removes an outdated transaction and changes nothing else, and the store stays valid.
  pub get_transaction_status-answer_for :
      (clock now : ℤ) (id : String) (s : S)
      → Inv s
      → ((get_transaction_status ops clock now id s).0
          ≡ ok (answer_for clock now (find_id id (txs s))))
        × (txs (get_transaction_status ops clock now id s).1
            ≡ (if past clock (find_id id (txs s)) then remove id (txs s) else txs s))
        × Inv (get_transaction_status ops clock now id s).1
  unfolding get_transaction_status status_of
  get_transaction_status-answer_for clock now id s v =
      let r = ops.is_expired clock id s in
      let (said, list, valid) = R.is_expired_ok clock id s v in
      elim (Option-cases (find_id id (txs s))) [
        | inl gone ↦
            let done = poll-true now id r (said ∙ ap (λ o. ok (past clock o)) gone) in
            rw (done, gone) (refl, list ∙ rw gone refl, valid)
        | inr (t, there) ↦ elim (Bool-cases (ltb_ℤ t.expires_at clock)) [
          | inl late ↦
              let done =
                poll-true now id r (said ∙ ap (λ o. ok (past clock o)) there ∙ ap ok late) in
              rw (done, there, late) (refl, list ∙ rw (there, late) refl, valid)
          | inr early ↦
              let done =
                poll-false now id r (said ∙ ap (λ o. ok (past clock o)) there ∙ ap ok early) in
              let same : txs r.1 ≡ txs s = list ∙ rw (there, early) refl in
              rw (done, there, early) (rw (R.get_ok id r.1 valid, same, there) refl, same, valid)
        ]
      ]
