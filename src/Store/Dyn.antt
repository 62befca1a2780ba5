-- ===== src/Store/Dyn.antt =====
-- `DynTransactionStore` of crates/ewqwe-openid4vp/src/transaction.rs: one type over both back ends.
pub mod Law
use ewqwe_identity.Prelude.{String, Bool, Option}
use ewqwe_identity.Prelude.Int.{ℤ}
use ewqwe_identity.Types.{OpenId4vpResult, TransactionStatus}
use ewqwe_identity.Store.Spec.{Tx}
use ewqwe_identity.Store.Interface.{TransactionStore}
use ewqwe_identity.Store.Memory.{Store, in_memory}
use ewqwe_identity.Store.Sqlite.{Table, sqlite}
use ewqwe_identity.Store.Sqlite.Serde.{Codec}

pub data DynTransactionStore (Text : Type 0) : Type 0 where
  in_sqlite : Table Text → DynTransactionStore Text
  in_mem : Store → DynTransactionStore Text

module _ {Text : Type 0} where
  pub sqlite_step : {A : Type 0} → A × Table Text → A × DynTransactionStore Text
  sqlite_step (a, rows) = (a, in_sqlite rows)

  pub mem_step : {A : Type 0} → A × Store → A × DynTransactionStore Text
  mem_step (a, s) = (a, in_mem s)

module _ {Text : Type 0} (c : Codec Text) where
  abbrev Dyn : Type 0
  Dyn = DynTransactionStore Text

  pub set : Tx → Dyn → OpenId4vpResult (Unit {0}) × Dyn
  unfolding sqlite_step mem_step
  set transaction (in_sqlite s) = sqlite_step ((sqlite c).set transaction s)
  set transaction (in_mem s) = mem_step (in_memory.set transaction s)

  pub get : String → Dyn → OpenId4vpResult (Option Tx)
  get id (in_sqlite s) = (sqlite c).get id s
  get id (in_mem s) = in_memory.get id s

  pub find_by_state : String → Dyn → OpenId4vpResult (Option Tx)
  find_by_state state (in_sqlite s) = (sqlite c).find_by_state state s
  find_by_state state (in_mem s) = in_memory.find_by_state state s

  pub delete : String → Dyn → OpenId4vpResult Bool × Dyn
  unfolding sqlite_step mem_step
  delete id (in_sqlite s) = sqlite_step ((sqlite c).delete id s)
  delete id (in_mem s) = mem_step (in_memory.delete id s)

  pub update_status : String → TransactionStatus → Dyn → OpenId4vpResult (Unit {0}) × Dyn
  unfolding sqlite_step mem_step
  update_status id status (in_sqlite s) = sqlite_step ((sqlite c).update_status id status s)
  update_status id status (in_mem s) = mem_step (in_memory.update_status id status s)

  pub update : String → (Tx → Tx) → Dyn → OpenId4vpResult (Option (Unit {0})) × Dyn
  unfolding sqlite_step mem_step
  update id f (in_sqlite s) = sqlite_step ((sqlite c).update id f s)
  update id f (in_mem s) = mem_step (in_memory.update id f s)

  pub update_by_state : String → (Tx → Tx) → Dyn → OpenId4vpResult (Option (Unit {0})) × Dyn
  unfolding sqlite_step mem_step
  update_by_state state f (in_sqlite s) = sqlite_step ((sqlite c).update_by_state state f s)
  update_by_state state f (in_mem s) = mem_step (in_memory.update_by_state state f s)

  pub is_expired : ℤ → String → Dyn → OpenId4vpResult Bool × Dyn
  unfolding sqlite_step mem_step
  is_expired now id (in_sqlite s) = sqlite_step ((sqlite c).is_expired now id s)
  is_expired now id (in_mem s) = mem_step (in_memory.is_expired now id s)

  abbrev pub dyn : TransactionStore Dyn
  dyn = record {
    set = set;
    get = get;
    find_by_state = find_by_state;
    delete = delete;
    update_status = update_status;
    update = update;
    update_by_state = update_by_state;
    is_expired = is_expired;
  }
