-- ===== src/Store/Dyn/Law.antt =====
-- The store that the server runs refines the specification, whichever back end it has, on
-- transactions that serde_json reads back.
use ewqwe_identity.Prelude.{List, ap}
use ewqwe_identity.Store.Spec.{Tx}
use ewqwe_identity.Store.Interface.Partial.{RefinesOn, restrict}
use ewqwe_identity.Store.Memory.Law as Mem
use ewqwe_identity.Store.Sqlite.Images as Sql
use ewqwe_identity.Store.Sqlite.Law.{sqlite-Refines}
use ewqwe_identity.Store.Memory.{Store}
use ewqwe_identity.Store.Sqlite.{Table}
use ewqwe_identity.Store.Sqlite.Serde.{Codec, ReadsBack}
use ewqwe_identity.Store.Dyn.{
  DynTransactionStore, in_sqlite, in_mem, sqlite_step, mem_step, set, get, find_by_state, delete,
  update_status, update, update_by_state, is_expired, dyn,
}

module _ {Text : Type 0} (c : Codec Text) (text : Tx → Text) where
  abbrev pub IsValid : DynTransactionStore Text → Type 0
  IsValid (in_sqlite rows) = Sql.IsValid c text rows
  IsValid (in_mem s) = Mem.IsValid s

  abbrev pub held : DynTransactionStore Text → List Tx
  held (in_sqlite rows) = Sql.stored c rows
  held (in_mem s) = Mem.held s

  by_backend :
      (P : DynTransactionStore Text → Type 0)
      → ((rows : Table Text) → P (in_sqlite rows))
      → ((m : Store) → P (in_mem m))
      → (s : DynTransactionStore Text) → P s
  by_backend P f g (in_sqlite rows) = f rows
  by_backend P f g (in_mem m) = g m

  -- When its calls run one after another, the store that dispatches to its back end does what the
  -- specification of a transaction store says, operation by operation, on every valid state of either
  -- back end, for transactions that serde_json reads back as they were, which updates keep so.
  pub dyn-Refines : RefinesOn (ReadsBack c text) (dyn c) IsValid held
  unfolding sqlite_step mem_step set get find_by_state delete update_status update update_by_state
      is_expired
  dyn-Refines =
      let sql = sqlite-Refines c text in
      let mem = restrict (ReadsBack c text) Mem.in_memory-Refines in
      record {
        unique = by_backend _ sql.unique mem.unique;
        get_ok = λ k. by_backend _ (sql.get_ok k) (mem.get_ok k);
        find_ok = λ k. by_backend _ (sql.find_ok k) (mem.find_ok k);
        set_ok = λ t. by_backend _ (sql.set_ok t) (mem.set_ok t);
        set_clash = λ t.
            by_backend _
              (λ rows v good e. let (m, h) = sql.set_clash t rows v good e in (m, ap sqlite_step h))
              (λ u v good e. let (m, h) = mem.set_clash t u v good e in (m, ap mem_step h));
        delete_ok = λ k. by_backend _ (sql.delete_ok k) (mem.delete_ok k);
        update_ok = λ k f. by_backend _ (sql.update_ok k f) (mem.update_ok k f);
        update_by_state_ok =
            λ k f. by_backend _ (sql.update_by_state_ok k f) (mem.update_by_state_ok k f);
        update_status_ok =
            λ k st. by_backend _ (sql.update_status_ok k st) (mem.update_status_ok k st);
        is_expired_ok = λ now k. by_backend _ (sql.is_expired_ok now k) (mem.is_expired_ok now k);
      }
