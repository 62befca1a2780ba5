-- ===== src/Prelude/BtreeMap.antt =====
-- `BTreeMap`: a list of entries in the order of their keys.
use mathlib.Core.List.{Memᴰ}
use mathlib.Core.List.Memᴰ
use ewqwe_identity.Prelude.{
  ◌≡◌, ◌⊎◌, inl, inr, Option, some, none, List, [], ◌∷◌, Ordering, Ordering-cases,
}

-- `map.insert(k, v)` and `map.get(k)`, over the comparison of the keys.
module _ {K V : Type 0} (compare : K → K → Ordering) where
  unfoldable pub map_insert : K → V → List (K × V) → List (K × V)
  map_insert k v [] = (k, v) ∷ []
  map_insert k v ((j, w) ∷ m) = elim (compare k j) [
    | Ordering.lt ↦ (k, v) ∷ (j, w) ∷ m
    | Ordering.eq ↦ (k, v) ∷ m
    | Ordering.gt ↦ (j, w) ∷ map_insert k v m
  ]

  unfoldable pub map_get : K → List (K × V) → Option V
  map_get k [] = none
  map_get k ((j, w) ∷ m) = elim (compare k j) [ Ordering.eq ↦ some w | _ ↦ map_get k m ]

  -- An entry after an insertion is the inserted one, or was there before.
  pub map_insert-Mem :
      (k : K) (v : V) (m : List (K × V)) {e : K × V}
      → Memᴰ e (map_insert k v m)
      → (e ≡ (k, v)) ⊎ Memᴰ e m
  unfolding map_insert
  map_insert-Mem k v [] {e} h = elim (Memᴰ.cases_cons h) [ inl same ↦ inl same | inr m ↦ inr m ]
  map_insert-Mem k v ((j, w) ∷ m) {e} h = elim (Ordering-cases (compare k j)) [
    | inl c ↦ Memᴰ.cases_cons (rw (c, map_insert) at h)
    | inr (inl c) ↦ elim (Memᴰ.cases_cons (rw (c, map_insert) at h)) [
      | inl same ↦ inl same
      | inr old ↦ inr (Memᴰ.tail old)
    ]
    | inr (inr c) ↦ elim (Memᴰ.cases_cons (rw (c, map_insert) at h)) [
      | inl same ↦ inr (Memᴰ.head same)
      | inr later ↦ elim (map_insert-Mem k v m later) [
        | inl new ↦ inl new
        | inr old ↦ inr (Memᴰ.tail old)
      ]
    ]
  ]
