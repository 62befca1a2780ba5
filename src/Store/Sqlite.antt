-- ===== src/Store/Sqlite.antt =====
-- crates/ewqwe-openid4vp/src/stores/sqlite.rs. The table `transactions` is a list of rows in the
-- order of insertion; each statement of SQL is the function that its text describes, over the
-- primary key on `id` and the unique index on `state`. One statement is one step. An operation of two
-- statements holds no lock and no transaction between them, so it takes what the other connections of
-- the pool do to the table in between, `between`; `alone` is that they do nothing. Statements that
-- fail for a reason of the database engine's own (disk, connection) are not modelled.
pub mod Serde
pub mod Rows
pub mod Images
pub mod Law
pub mod Race
use ewqwe_identity.Prelude.{
  String, Bool, true, false, not, ◌&&◌, ◌||◌, str_eq, Option, none, some, List, [], ◌∷◌, is_some,
  ◌<>◌, if◌then◌else◌,
}
use ewqwe_identity.Prelude.Int.{ℤ, ltb_ℤ}
use ewqwe_identity.Prelude.Result.{Result, ok, err, map_err, ◌>>=◌}
use ewqwe_identity.Types.{OpenId4vpResult, internal, TransactionStatus}
use ewqwe_identity.Store.Spec.{Tx}
use ewqwe_identity.Store.Interface.{TransactionStore, set_status}
use ewqwe_identity.Store.Sqlite.Serde.{Codec}

-- `data_json` is the column `data`.
pub record Row (Text : Type 0) : Type 0 where
  pub id : String
  pub state : String
  pub expires_at : ℤ
  pub data_json : Text

abbrev pub Table : Type 0 → Type 0
Table Text = List (Row Text)

module _ {Text : Type 0} where
  -- SELECT … WHERE id = ?1
  pub select_id : String → Table Text → Option (Row Text)
  select_id k [] = none
  select_id k (r ∷ rows) = if str_eq r.id k then some r else select_id k rows

  -- SELECT … WHERE state = ?1 LIMIT 1
  pub select_state : String → Table Text → Option (Row Text)
  select_state k [] = none
  select_state k (r ∷ rows) = if str_eq r.state k then some r else select_state k rows

  -- DELETE … WHERE id = ?1, with the number of rows affected
  pub delete_id : String → Table Text → Table Text
  delete_id k [] = []
  delete_id k (r ∷ rows) = let rest = delete_id k rows in if str_eq r.id k then rest else r ∷ rest

  -- The unique index: another row has the state.
  unfoldable pub taken : Row Text → Table Text → Bool
  taken new_row [] = false
  taken new_row (r ∷ rows) =
      (not (str_eq r.id new_row.id) && str_eq r.state new_row.state) || taken new_row rows

  -- INSERT … ON CONFLICT(id) DO UPDATE SET state, expires_at, data
  pub upsert : Row Text → Table Text → Table Text
  upsert new_row [] = new_row ∷ []
  upsert new_row (r ∷ rows) =
      if str_eq r.id new_row.id then new_row ∷ rows else r ∷ upsert new_row rows

  unfoldable pub row_of : Tx → Text → Row Text
  row_of tx d = record { id = tx.id; state = tx.state; expires_at = tx.expires_at; data_json = d }

  unfoldable pub delete : String → Table Text → OpenId4vpResult Bool × Table Text
  unfolding select_id delete_id
  delete id rows = (ok (is_some (select_id id rows)), delete_id id rows)

  -- `self.set(tx).await?; Ok(Some(()))`
  some_done :
      OpenId4vpResult (Unit {0}) × Table Text → OpenId4vpResult (Option (Unit {0})) × Table Text
  some_done (ok u, rows) = (ok (some tt), rows)
  some_done (err e, rows) = (err e, rows)

  discard :
      OpenId4vpResult (Option (Unit {0})) × Table Text → OpenId4vpResult (Unit {0}) × Table Text
  discard (ok o, rows) = (ok tt, rows)
  discard (err e, rows) = (err e, rows)

  -- Nobody else works on the table.
  abbrev pub alone : Table Text → Table Text
  alone rows = rows

  -- `let _ = self.delete(id).await; Ok(true)`: a second statement.
  unfoldable pub is_expired :
      (Table Text → Table Text) → ℤ → String → Table Text → OpenId4vpResult Bool × Table Text
  unfolding select_id delete
  is_expired between now id rows = elim (select_id id rows) [
    | none ↦ (ok true, rows)
    | some r ↦
        if ltb_ℤ r.expires_at now then (ok true, (delete id (between rows)).1) else (ok false, rows)
  ]

module _ {Text : Type 0} (c : Codec Text) where
  serialize : Tx → OpenId4vpResult Text
  serialize tx = map_err (λ e. internal ("Transaction serialization: " <> e)) (c.to_string tx)

  deserialize : Text → OpenId4vpResult Tx
  deserialize d = map_err (λ e. internal ("Transaction deserialization: " <> e)) (c.from_str d)

  -- `row.map(|(data,)| Self::deserialize(&data)).transpose()`
  decode_row : Option (Row Text) → OpenId4vpResult (Option Tx)
  unfolding deserialize
  decode_row none = ok none
  decode_row (some r) = do tx ← deserialize r.data_json; ok (some tx)

  write : Tx → Table Text → OpenId4vpResult Text → OpenId4vpResult (Unit {0}) × Table Text
  unfolding taken upsert row_of
  write tx rows (err e) = (err e, rows)
  write tx rows (ok d) =
      if taken (row_of tx d) rows
      then (err (internal ("SQLite set: " <> c.unique_violation)), rows)
      else (ok tt, upsert (row_of tx d) rows)

  unfoldable pub set : Tx → Table Text → OpenId4vpResult (Unit {0}) × Table Text
  unfolding write serialize
  set tx rows = write tx rows (serialize tx)

  unfoldable pub get : String → Table Text → OpenId4vpResult (Option Tx)
  unfolding decode_row select_id
  get id rows = decode_row (select_id id rows)

  unfoldable pub find_by_state : String → Table Text → OpenId4vpResult (Option Tx)
  unfolding decode_row select_state
  find_by_state state rows = decode_row (select_state state rows)

  -- The read that `update` and `update_by_state` start with, and the write that follows it.
  change :
      (Table Text → Table Text)
      → (Tx → Tx)
      → OpenId4vpResult (Option Tx)
      → Table Text
      → OpenId4vpResult (Option (Unit {0})) × Table Text
  unfolding set some_done
  change between f (err e) rows = (err e, rows)
  change between f (ok none) rows = (ok none, rows)
  change between f (ok (some tx)) rows = some_done (set (f tx) (between rows))

  unfoldable pub update :
      (Table Text → Table Text)
      → String
      → (Tx → Tx)
      → Table Text
      → OpenId4vpResult (Option (Unit {0})) × Table Text
  unfolding change get
  update between id f rows = change between f (get id rows) rows

  unfoldable pub update_by_state :
      (Table Text → Table Text)
      → String
      → (Tx → Tx)
      → Table Text
      → OpenId4vpResult (Option (Unit {0})) × Table Text
  unfolding change find_by_state
  update_by_state between state f rows = change between f (find_by_state state rows) rows

  unfoldable pub update_status :
      (Table Text → Table Text)
      → String
      → TransactionStatus
      → Table Text
      → OpenId4vpResult (Unit {0}) × Table Text
  unfolding update discard
  update_status between id status rows = discard (update between id (set_status status) rows)

  -- The store when its calls run one after another.
  abbrev pub sqlite : TransactionStore (Table Text)
  sqlite = record {
    set = set;
    get = get;
    find_by_state = find_by_state;
    delete = delete;
    update_status = update_status alone;
    update = update alone;
    update_by_state = update_by_state alone;
    is_expired = is_expired alone;
  }
