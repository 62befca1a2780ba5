-- ===== src/Store/Spec.antt =====
-- What a transaction store holds, as a list of transactions, and what its operations do to it.
pub mod Uniqueness
pub mod Lookup
pub mod Overwrite
pub mod Removal
pub mod Every
use ewqwe_identity.Prelude.{
  String, ◌≡◌, Bool, true, false, not, ◌&&◌, ◌||◌, str_eq, Option, none, some, List, [], ◌∷◌,
  if◌then◌else◌,
}
use ewqwe_identity.Prelude.Int.{ℤ, ltb_ℤ}
use ewqwe_identity.Prelude.Sets.{NoDup}
use ewqwe_identity.Types.{OpenId4vpTransaction}

abbrev pub Tx : Type 0
Tx = OpenId4vpTransaction

abbrev pub ids : List Tx → List String
ids [] = []
ids (t ∷ ts) = t.id ∷ ids ts

abbrev pub states : List Tx → List String
states [] = []
states (t ∷ ts) = t.state ∷ states ts

-- No two transactions share an id, and no two share a `state`.
pub record Unique (ts : List Tx) : Type 0 where
  pub unique_ids : NoDup (ids ts)
  pub unique_states : NoDup (states ts)

unfoldable pub find_id : String → List Tx → Option Tx
find_id k [] = none
find_id k (t ∷ ts) = if str_eq t.id k then some t else find_id k ts

unfoldable pub find_state : String → List Tx → Option Tx
find_state k [] = none
find_state k (t ∷ ts) = if str_eq t.state k then some t else find_state k ts

-- Write a transaction under its id.
unfoldable pub put : Tx → List Tx → List Tx
put t [] = t ∷ []
put t (u ∷ us) = if str_eq u.id t.id then t ∷ us else u ∷ put t us

unfoldable pub remove : String → List Tx → List Tx
remove k [] = []
remove k (u ∷ us) = if str_eq u.id k then us else u ∷ remove k us

-- Another transaction has the same `state`.
unfoldable pub clash : Tx → List Tx → Bool
clash t [] = false
clash t (u ∷ us) = (not (str_eq u.id t.id) && str_eq u.state t.state) || clash t us

unfoldable pub modify_id : String → (Tx → Tx) → List Tx → List Tx
modify_id k f [] = []
modify_id k f (u ∷ us) = if str_eq u.id k then f u ∷ us else u ∷ modify_id k f us

unfoldable pub modify_state : String → (Tx → Tx) → List Tx → List Tx
modify_state k f [] = []
modify_state k f (u ∷ us) = if str_eq u.state k then f u ∷ us else u ∷ modify_state k f us

-- A missing transaction counts as expired.
abbrev pub past : ℤ → Option Tx → Bool
past now none = true
past now (some t) = ltb_ℤ t.expires_at now

-- The closures that the service passes to `update` leave the two keys alone.
pub record KeepsKeys (f : Tx → Tx) : Type 0 where
  pub keeps_id : (t : Tx) → (f t).id ≡ t.id
  pub keeps_state : (t : Tx) → (f t).state ≡ t.state
