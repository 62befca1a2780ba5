-- ===== src/Store/Interface/Partial.antt =====
-- The laws of a store that keeps only some transactions faithfully.
use ewqwe_identity.Prelude.{String, ◌≡◌, true, false, List, is_some, if◌then◌else◌}
use ewqwe_identity.Prelude.Int.{ℤ}
use ewqwe_identity.Prelude.Result.{ok, err}
use ewqwe_identity.Types.{internal, TransactionStatus}
use ewqwe_identity.Store.Spec.{
  Tx, Unique, KeepsKeys, find_id, find_state, put, remove, clash, modify_id, modify_state, past,
}
use ewqwe_identity.Store.Interface.{TransactionStore, Refines, done, set_status}

-- `Refines`, where what is written are transactions that satisfy `Ok`: a transaction that is set, and
-- what an update makes of a transaction that satisfies it.
pub record RefinesOn (Ok : Tx → Type 0) {S : Type 0} (ops : TransactionStore S) (Inv : S → Type 0)
    (txs : S → List Tx) : Type 0 where
  pub unique : (s : S) → Inv s → Unique (txs s)
  pub get_ok : (k : String) (s : S) → Inv s → ops.get k s ≡ ok (find_id k (txs s))
  pub find_ok : (k : String) (s : S) → Inv s → ops.find_by_state k s ≡ ok (find_state k (txs s))
  pub set_ok :
      (t : Tx) (s : S)
      → Inv s
      → Ok t
      → clash t (txs s) ≡ false
      → ((ops.set t s).0 ≡ ok tt) × (txs (ops.set t s).1 ≡ put t (txs s)) × Inv (ops.set t s).1
  pub set_clash :
      (t : Tx) (s : S)
      → Inv s
      → Ok t
      → clash t (txs s) ≡ true
      → (msg : String) × (ops.set t s ≡ (err (internal msg), s))
  pub delete_ok :
      (k : String) (s : S)
      → Inv s
      → ((ops.delete k s).0 ≡ ok (is_some (find_id k (txs s))))
        × (txs (ops.delete k s).1 ≡ remove k (txs s))
        × Inv (ops.delete k s).1
  pub update_ok :
      (k : String) (f : Tx → Tx) (s : S)
      → Inv s
      → KeepsKeys f
      → ((t : Tx) → Ok t → Ok (f t))
      → ((ops.update k f s).0 ≡ ok (done (find_id k (txs s))))
        × (txs (ops.update k f s).1 ≡ modify_id k f (txs s))
        × Inv (ops.update k f s).1
  pub update_by_state_ok :
      (k : String) (f : Tx → Tx) (s : S)
      → Inv s
      → KeepsKeys f
      → ((t : Tx) → Ok t → Ok (f t))
      → ((ops.update_by_state k f s).0 ≡ ok (done (find_state k (txs s))))
        × (txs (ops.update_by_state k f s).1 ≡ modify_state k f (txs s))
        × Inv (ops.update_by_state k f s).1
  pub update_status_ok :
      (k : String) (st : TransactionStatus) (s : S)
      → Inv s
      → ((t : Tx) → Ok t → Ok (set_status st t))
      → ((ops.update_status k st s).0 ≡ ok tt)
        × (txs (ops.update_status k st s).1 ≡ modify_id k (set_status st) (txs s))
        × Inv (ops.update_status k st s).1
  pub is_expired_ok :
      (now : ℤ) (k : String) (s : S)
      → Inv s
      → ((ops.is_expired now k s).0 ≡ ok (past now (find_id k (txs s))))
        × (txs (ops.is_expired now k s).1
            ≡ (if past now (find_id k (txs s)) then remove k (txs s) else txs s))
        × Inv (ops.is_expired now k s).1

-- A store that keeps every transaction does so for those that satisfy `Ok`.
pub restrict :
    (Ok : Tx → Type 0) {S : Type 0} {ops : TransactionStore S} {Inv : S → Type 0}
    {txs : S → List Tx}
    → Refines ops Inv txs
    → RefinesOn Ok ops Inv txs
restrict Ok R = record {
  unique = R.unique;
  get_ok = R.get_ok;
  find_ok = R.find_ok;
  set_ok = λ t s v good. R.set_ok t s v;
  set_clash = λ t s v good. R.set_clash t s v;
  delete_ok = R.delete_ok;
  update_ok = λ k f s v keeps again. R.update_ok k f s v keeps;
  update_by_state_ok = λ k f s v keeps again. R.update_by_state_ok k f s v keeps;
  update_status_ok = λ k st s v again. R.update_status_ok k st s v;
  is_expired_ok = R.is_expired_ok;
}
