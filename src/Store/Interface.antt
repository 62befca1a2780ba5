-- ===== src/Store/Interface.antt =====
-- `TransactionStore` of crates/ewqwe-openid4vp/src/transaction.rs: the operations, as functions on
-- the store's state, and the laws that the service relies on.
pub mod Partial
use ewqwe_identity.Prelude.{String, ◌≡◌, Bool, true, false, Option, is_some, opt_map, if◌then◌else◌}
use ewqwe_identity.Prelude.Int.{ℤ}
use ewqwe_identity.Prelude.Result.{ok, err}
use ewqwe_identity.Types.{internal, OpenId4vpResult, TransactionStatus}
use ewqwe_identity.Store.Spec.{
  Tx, Unique, KeepsKeys, find_id, find_state, put, remove, clash, modify_id, modify_state, past,
}
use ewqwe_identity.Prelude.{List}

-- `now` is the reading of the clock that `is_expired` makes.
pub record TransactionStore (S : Type 0) : Type 0 where
  pub set : Tx → S → OpenId4vpResult (Unit {0}) × S
  pub get : String → S → OpenId4vpResult (Option Tx)
  pub find_by_state : String → S → OpenId4vpResult (Option Tx)
  pub delete : String → S → OpenId4vpResult Bool × S
  pub update_status : String → TransactionStatus → S → OpenId4vpResult (Unit {0}) × S
  pub update : String → (Tx → Tx) → S → OpenId4vpResult (Option (Unit {0})) × S
  pub update_by_state : String → (Tx → Tx) → S → OpenId4vpResult (Option (Unit {0})) × S
  pub is_expired : ℤ → String → S → OpenId4vpResult Bool × S

-- `found.map(|_| ())`
abbrev pub done : Option Tx → Option (Unit {0})
done = opt_map (λ t. tt)

abbrev pub set_status : TransactionStatus → Tx → Tx
set_status st t = record t { status = st }

-- On every state that satisfies `Inv`, the store holds the list `txs s`, in which no id and no state
-- stands twice, and each operation does to it what `Spec` says.
pub record Refines {S : Type 0} (ops : TransactionStore S) (Inv : S → Type 0) (txs : S → List Tx)
    : Type 0 where
  pub unique : (s : S) → Inv s → Unique (txs s)
  pub get_ok : (k : String) (s : S) → Inv s → ops.get k s ≡ ok (find_id k (txs s))
  pub find_ok : (k : String) (s : S) → Inv s → ops.find_by_state k s ≡ ok (find_state k (txs s))
  pub set_ok :
      (t : Tx) (s : S)
      → Inv s
      → clash t (txs s) ≡ false
      → ((ops.set t s).0 ≡ ok tt) × (txs (ops.set t s).1 ≡ put t (txs s)) × Inv (ops.set t s).1
  pub set_clash :
      (t : Tx) (s : S)
      → Inv s
      → clash t (txs s) ≡ true
      → (msg : String) × (ops.set t s ≡ (err (internal msg), s))
  pub delete_ok :
      (k : String) (s : S)
      → Inv s
      → ((ops.delete k s).0 ≡ ok (is_some (find_id k (txs s))))
        × (txs (ops.delete k s).1 ≡ remove k (txs s))
        × Inv (ops.delete k s).1
  pub update_ok :
      (k : String) (f : Tx → Tx) (s : S)
      → Inv s
      → KeepsKeys f
      → ((ops.update k f s).0 ≡ ok (done (find_id k (txs s))))
        × (txs (ops.update k f s).1 ≡ modify_id k f (txs s))
        × Inv (ops.update k f s).1
  pub update_by_state_ok :
      (k : String) (f : Tx → Tx) (s : S)
      → Inv s
      → KeepsKeys f
      → ((ops.update_by_state k f s).0 ≡ ok (done (find_state k (txs s))))
        × (txs (ops.update_by_state k f s).1 ≡ modify_state k f (txs s))
        × Inv (ops.update_by_state k f s).1
  pub update_status_ok :
      (k : String) (st : TransactionStatus) (s : S)
      → Inv s
      → ((ops.update_status k st s).0 ≡ ok tt)
        × (txs (ops.update_status k st s).1 ≡ modify_id k (set_status st) (txs s))
        × Inv (ops.update_status k st s).1
  pub is_expired_ok :
      (now : ℤ) (k : String) (s : S)
      → Inv s
      → ((ops.is_expired now k s).0 ≡ ok (past now (find_id k (txs s))))
        × (txs (ops.is_expired now k s).1
            ≡ (if past now (find_id k (txs s)) then remove k (txs s) else txs s))
        × Inv (ops.is_expired now k s).1
