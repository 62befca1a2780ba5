-- ===== src/Json/Origin.antt =====
-- Where the entries of a map come from.
use ewqwe_identity.Prelude.{String, ◌≡◌, ◌⊎◌, inl, inr, Ordering-cases, str_compare}
use ewqwe_identity.Json.{Json, Fields, end, field}
use ewqwe_identity.Json.Map.{insert}

-- Some entry has this key and this value.
abbrev pub Has : String → Json → Fields → Type 0
Has k v end = ⊥
Has k v (field j w m) = ((j ≡ k) × (w ≡ v)) ⊎ Has k v m

-- What stands in a map after an insertion is what was inserted, or stood there before.
pub insert-Has :
    (k j : String) (v w : Json) (m : Fields)
    → Has k v (insert j w m)
    → ((j ≡ k) × (w ≡ v)) ⊎ Has k v m
unfolding insert
insert-Has k j v w end h = h
insert-Has k j v w (field i u m) h = elim (Ordering-cases (str_compare j i)) [
  | inl e ↦ rw (e, insert) at h
  | inr (inl e) ↦ elim (rw (e, insert) at h) [ inl here ↦ inl here | inr later ↦ inr (inr later) ]
  | inr (inr e) ↦ elim (rw (e, insert) at h) [
    | inl here ↦ inr (inl here)
    | inr later ↦ elim (insert-Has k j v w m later) [ inl new ↦ inl new | inr old ↦ inr (inr old) ]
  ]
]
