-- ===== src/Cbor.antt =====
-- `ciborium::Value`, and crates/ewqwe-digital-credential/src/util.rs: how CBOR is walked.
use ewqwe_identity.Prelude.{
  ℕ, String, Bool, Option, some, none, opt_bind, List, [], ◌∷◌, str_eq, if◌then◌else◌, ltb, ◌^◌,
}
use ewqwe_identity.Prelude.Int.{ℤ, pos, negsuc}
use ewqwe_identity.Json.{Json, Items, Fields, null, bool, int, num, str, arr, obj, nil, cons, end}
use ewqwe_identity.Json.Map.{insert}

mutual
  -- A float stands by its bits; `other` is what the enumeration may still get.
  pub data Cbor : Type 0 where
    integer : ℤ → Cbor
    bytes : List ℕ → Cbor
    float : ℕ → Cbor
    text : String → Cbor
    boolean : Bool → Cbor
    nothing : Cbor
    tag : ℕ → Cbor → Cbor
    array : Cells → Cbor
    map_of : Entries → Cbor
    other : Cbor

  pub data Cells : Type 0 where
    last : Cells
    cell : Cbor → Cells → Cells

  pub data Entries : Type 0 where
    done : Entries
    entry : Cbor → Cbor → Entries → Entries

unfoldable pub cells : Cells → List Cbor
cells last = []
cells (cell v vs) = v ∷ cells vs

unfoldable pub entries : Entries → List (Cbor × Cbor)
entries done = []
entries (entry k v es) = (k, v) ∷ entries es

unfoldable pub unwrap_cbor_tags : Cbor → Cbor
unwrap_cbor_tags (tag n inner) = unwrap_cbor_tags inner
unwrap_cbor_tags value = value

unfoldable pub as_cbor_map : Cbor → Option (List (Cbor × Cbor))
unfolding entries
as_cbor_map (map_of es) = some (entries es)
as_cbor_map _ = none

unfoldable pub as_cbor_array : Cbor → Option (List Cbor)
unfolding cells
as_cbor_array (array vs) = some (cells vs)
as_cbor_array _ = none

unfoldable pub as_text : Cbor → Option String
as_text (text t) = some t
as_text _ = none

unfoldable pub as_bytes : Cbor → Option (List ℕ)
as_bytes (bytes b) = some b
as_bytes _ = none

unfoldable pub cbor_map_get : List (Cbor × Cbor) → String → Option Cbor
cbor_map_get [] key = none
cbor_map_get ((text t, v) ∷ es) key = if str_eq t key then some v else cbor_map_get es key
cbor_map_get ((k, v) ∷ es) key = cbor_map_get es key

unfoldable pub cbor_map_get_text : List (Cbor × Cbor) → String → Option String
unfolding cbor_map_get unwrap_cbor_tags as_text
cbor_map_get_text es key = opt_bind (cbor_map_get es key) (λ v. as_text (unwrap_cbor_tags v))

unfoldable pub cbor_value_to_text : Option Cbor → Option String
unfolding unwrap_cbor_tags as_text
cbor_value_to_text value = opt_bind value (λ v. as_text (unwrap_cbor_tags v))

-- `u64::try_from`
unfoldable pub to_u64 : ℤ → Option ℕ
to_u64 (pos n) = if ltb n (2 ^ 64) then some n else none
to_u64 (negsuc n) = none

unfoldable pub integer_of : Cbor → Option ℤ
integer_of (integer i) = some i
integer_of _ = none

unfoldable pub cbor_integer_to_u64 : Cbor → Option ℕ
unfolding unwrap_cbor_tags integer_of to_u64
cbor_integer_to_u64 value = opt_bind (integer_of (unwrap_cbor_tags value)) to_u64

unfoldable pub cbor_type_name : Cbor → String
cbor_type_name (integer i) = "Integer"
cbor_type_name (bytes b) = "Bytes"
cbor_type_name (text t) = "Text"
cbor_type_name (array vs) = "Array"
cbor_type_name (map_of es) = "Map"
cbor_type_name (boolean b) = "Bool"
cbor_type_name (tag n inner) = "Tag"
cbor_type_name nothing = "Null"
cbor_type_name (float f) = "Float"
cbor_type_name other = "Unknown"

-- `i128::to_string`, serde_json's `from_f64` as the number's text, base64's writer, and `{:?}`.
pub record Writers : Type 0 where
  pub decimal : ℤ → String
  pub from_f64 : ℕ → Option String
  pub encode : List ℕ → String
  pub debug : Cbor → String

module _ (x : Writers) where
  -- An unsigned 64-bit number, a signed one, or else a text.
  number_of : ℤ → Json
  number_of (pos n) =
      if ltb n (2 ^ 63)
      then int (pos n)
      else (if ltb n (2 ^ 64) then num (x.decimal (pos n)) else str (x.decimal (pos n)))
  number_of (negsuc n) = if ltb n (2 ^ 63) then int (negsuc n) else str (x.decimal (negsuc n))

  float_of : Option String → Json
  float_of none = null
  float_of (some t) = num t

  key_of : Cbor → String
  key_of (text t) = t
  key_of (integer i) = x.decimal i
  key_of k = x.debug k

  unfoldable mutual
    unfolding number_of float_of key_of insert

    pub cbor_to_json : Cbor → Json
    cbor_to_json (boolean b) = bool b
    cbor_to_json (integer i) = number_of i
    cbor_to_json (float f) = float_of (x.from_f64 f)
    cbor_to_json (text t) = str t
    cbor_to_json (bytes b) = str (x.encode b)
    cbor_to_json (array vs) = arr (cells_to_json vs)
    cbor_to_json (map_of es) = obj (entries_to_json es end)
    cbor_to_json (tag n inner) = cbor_to_json inner
    cbor_to_json nothing = null
    cbor_to_json other = null

    cells_to_json : Cells → Items
    cells_to_json last = nil
    cells_to_json (cell v vs) = cons (cbor_to_json v) (cells_to_json vs)

    entries_to_json : Entries → Fields → Fields
    entries_to_json done acc = acc
    entries_to_json (entry k v es) acc = entries_to_json es (insert (key_of k) (cbor_to_json v) acc)
