-- ===== src/Json.antt =====
-- `serde_json::Value`, as the crates use it. A map is serde_json's default `BTreeMap`, whose entries
-- stand in the order of their keys.
pub mod Map
pub mod Origin
use ewqwe_identity.Prelude.Int.{ℤ}
use ewqwe_identity.Prelude.{String, Bool, Option, none, some, List, [], ◌∷◌}

mutual
  pub data Json : Type 0 where
    null : Json
    bool : Bool → Json
    -- an integer that fits `i64`
    int : ℤ → Json
    -- any other number, by its text
    num : String → Json
    str : String → Json
    arr : Items → Json
    obj : Fields → Json

  pub data Items : Type 0 where
    nil : Items
    cons : Json → Items → Items

  pub data Fields : Type 0 where
    end : Fields
    field : String → Json → Fields → Fields

unfoldable pub items : Items → List Json
items nil = []
items (cons x xs) = x ∷ items xs

-- `as_str`, `as_bool`, `as_array`
abbrev pub as_str : Json → Option String
as_str (str s) = some s
as_str _ = none

abbrev pub as_bool : Json → Option Bool
as_bool (bool b) = some b
as_bool _ = none

abbrev pub as_array : Json → Option (List Json)
as_array (arr xs) = some (items xs)
as_array _ = none

abbrev pub as_object : Json → Option Fields
as_object (obj fs) = some fs
as_object _ = none

-- `as_i64`
abbrev pub as_i64 : Json → Option ℤ
as_i64 (int z) = some z
as_i64 _ = none
