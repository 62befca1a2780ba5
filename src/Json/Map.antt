-- ===== src/Json/Map.antt =====
-- `serde_json::Map`: lookup and insertion in the order of the keys.
use ewqwe_identity.Prelude.{
  List, [], ◌∷◌, String, Option, none, some, Ordering, str_compare, str_eq, if◌then◌else◌,
}
use ewqwe_identity.Json.{Json, obj, Fields, end, field}

-- `map.get(k)`
unfoldable pub lookup : String → Fields → Option Json
lookup k end = none
lookup k (field j v m) = if str_eq j k then some v else lookup k m

-- `value.get(k)`, which is `None` on a value that is no object
unfoldable pub get : Json → String → Option Json
unfolding lookup
get (obj m) k = lookup k m
get _ k = none

-- `map.insert(k, v)`
unfoldable pub insert : String → Json → Fields → Fields
insert k v end = field k v end
insert k v (field j w m) = elim (str_compare k j) [
  | Ordering.lt ↦ field k v (field j w m)
  | Ordering.eq ↦ field k v m
  | Ordering.gt ↦ field j w (insert k v m)
]

-- `json!({ … })`: the entries are inserted one after the other.
unfoldable pub insert_all : List (String × Json) → Fields → Fields
unfolding insert
insert_all [] m = m
insert_all ((k, v) ∷ entries) m = insert_all entries (insert k v m)

unfoldable pub object : List (String × Json) → Json
unfolding insert_all
object entries = obj (insert_all entries end)
