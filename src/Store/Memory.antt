-- ===== src/Store/Memory.antt =====
-- crates/ewqwe-openid4vp/src/stores/memory.rs. The `HashMap` is an association list, whose order
-- stands for the map's order of iteration; each method holds the lock from its start to its end.
pub mod Law
use ewqwe_identity.Prelude.{
  ℕ, String, Bool, true, false, not, ◌&&◌, ◌||◌, str_eq, Option, none, some, List, [], ◌∷◌, is_some,
  ◌<>◌, if◌then◌else◌,
}
use ewqwe_identity.Prelude.Int.{ℤ, ltb_ℤ}
use ewqwe_identity.Prelude.Result.{ok, err}
use ewqwe_identity.Types.{OpenId4vpResult, internal, TransactionStatus}
use ewqwe_identity.Store.Spec.{Tx}
use ewqwe_identity.Store.Interface.{TransactionStore, set_status}

pub record InMemoryTransactionStore : Type 0 where
  pub inner : List (String × Tx)
  pub ttl_secs : ℤ

unfoldable pub new : ℤ → InMemoryTransactionStore
new ttl_secs = record { inner = []; ttl_secs = ttl_secs }

-- `HashMap::get`, `insert` and `remove`
map_get : String → List (String × Tx) → Option Tx
map_get k [] = none
map_get k ((j, t) ∷ m) = if str_eq j k then some t else map_get k m

map_insert : String → Tx → List (String × Tx) → List (String × Tx)
map_insert k v [] = (k, v) ∷ []
map_insert k v ((j, t) ∷ m) = if str_eq j k then (j, v) ∷ m else (j, t) ∷ map_insert k v m

map_remove : String → List (String × Tx) → List (String × Tx)
map_remove k [] = []
map_remove k ((j, t) ∷ m) = if str_eq j k then m else (j, t) ∷ map_remove k m

-- `values().any(|existing| existing.id != transaction.id && existing.state == transaction.state)`
any_duplicate : Tx → List (String × Tx) → Bool
any_duplicate new_tx [] = false
any_duplicate new_tx ((j, existing) ∷ m) =
    (not (str_eq existing.id new_tx.id) && str_eq existing.state new_tx.state)
    || any_duplicate new_tx m

-- `values().find(|tx| tx.state == state)`
values_find : String → List (String × Tx) → Option Tx
values_find state [] = none
values_find state ((j, t) ∷ m) = if str_eq t.state state then some t else values_find state m

-- A write through `get_mut(id)` and through `values_mut().find(…)`.
map_update : String → (Tx → Tx) → List (String × Tx) → List (String × Tx)
map_update k f [] = []
map_update k f ((j, t) ∷ m) = if str_eq j k then (j, f t) ∷ m else (j, t) ∷ map_update k f m

values_update : String → (Tx → Tx) → List (String × Tx) → List (String × Tx)
values_update state f [] = []
values_update state f ((j, t) ∷ m) =
    if str_eq t.state state then (j, f t) ∷ m else (j, t) ∷ values_update state f m

abbrev pub Store : Type 0
Store = InMemoryTransactionStore

unfoldable pub set : Tx → Store → OpenId4vpResult (Unit {0}) × Store
unfolding any_duplicate map_insert
set transaction s =
    if any_duplicate transaction s.inner
    then (
      err (internal ("duplicate state detected for transaction store: " <> transaction.state)),
      s,
    )
    else (ok tt, record s { inner = map_insert transaction.id transaction s.inner })

unfoldable pub get : String → Store → OpenId4vpResult (Option Tx)
unfolding map_get
get id s = ok (map_get id s.inner)

unfoldable pub find_by_state : String → Store → OpenId4vpResult (Option Tx)
unfolding values_find
find_by_state state s = ok (values_find state s.inner)

unfoldable pub delete : String → Store → OpenId4vpResult Bool × Store
unfolding map_get map_remove
delete id s = (ok (is_some (map_get id s.inner)), record s { inner = map_remove id s.inner })

unfoldable pub update : String → (Tx → Tx) → Store → OpenId4vpResult (Option (Unit {0})) × Store
unfolding map_get map_update
update id f s = elim (map_get id s.inner) [
  | some tx ↦ (ok (some tt), record s { inner = map_update id f s.inner })
  | none ↦ (ok none, s)
]

unfoldable pub update_by_state :
    String → (Tx → Tx) → Store → OpenId4vpResult (Option (Unit {0})) × Store
unfolding values_find values_update
update_by_state state f s = elim (values_find state s.inner) [
  | some tx ↦ (ok (some tt), record s { inner = values_update state f s.inner })
  | none ↦ (ok none, s)
]

-- `self.update(…).await?; Ok(())`
discard : OpenId4vpResult (Option (Unit {0})) × Store → OpenId4vpResult (Unit {0}) × Store
discard (ok o, s) = (ok tt, s)
discard (err e, s) = (err e, s)

unfoldable pub update_status :
    String → TransactionStatus → Store → OpenId4vpResult (Unit {0}) × Store
unfolding update discard
update_status id status s = discard (update id (set_status status) s)

unfoldable pub is_expired : ℤ → String → Store → OpenId4vpResult Bool × Store
unfolding map_get map_remove
is_expired now id s = elim (map_get id s.inner) [
  | none ↦ (ok true, s)
  | some tx ↦
      if ltb_ℤ tx.expires_at now
      then (ok true, record s { inner = map_remove id s.inner })
      else (ok false, s)
]

abbrev pub in_memory : TransactionStore Store
in_memory = record {
  set = set;
  get = get;
  find_by_state = find_by_state;
  delete = delete;
  update_status = update_status;
  update = update;
  update_by_state = update_by_state;
  is_expired = is_expired;
}
