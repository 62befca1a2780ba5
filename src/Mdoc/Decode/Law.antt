-- ===== src/Mdoc/Decode/Law.antt =====
-- Where the decoded claims come from.
use mathlib.Core.List.{Memᴰ}
use mathlib.Core.List.Memᴰ
use ewqwe_identity.Prelude.{
  String, ◌≡◌, ◌⊎◌, inl, inr, refl, sym, ap, ◌∙◌, Option, some, none, Option-cases, List, [], ◌∷◌,
  str_compare,
}
use ewqwe_identity.Prelude.BtreeMap.{map_insert-Mem}
use ewqwe_identity.Prelude.Result.{ok, err, some-injective}
use ewqwe_identity.Json.{Json}
use ewqwe_identity.Cbor.{
  Cbor, integer, bytes, float, text, boolean, nothing, tag, array, map_of, other, as_cbor_array,
}
use ewqwe_identity.Credential.{CredentialResult}
use ewqwe_identity.Mdoc.{Externals}
use ewqwe_identity.Mdoc.Decode.{
  Claims, parse_issuer_signed_item, add_item, claims_of_items, named_items, add_namespace,
  collect_namespaces,
}

named_items-text :
    (k v : Cbor) (ns : String) (items : List Cbor)
    → named_items k v ≡ some (ns, items)
    → (k ≡ text ns) × (as_cbor_array v ≡ some items)
unfolding named_items
named_items-text (text t) v ns items h = elim (Option-cases (as_cbor_array v)) [
  | inl e ↦ cc (rw (e, named_items) at h)
  | inr (vs, e) ↦
      let same = some-injective (rw (e, named_items) at h) in
      (
        ap (λ (p : String × List Cbor). text p.0) same,
        e ∙ ap (λ (p : String × List Cbor). some p.1) same,
      )
]
named_items-text (tag n w) v ns items h = cc h
named_items-text (integer i) v ns items h = cc h
named_items-text (bytes b) v ns items h = cc h
named_items-text (float f) v ns items h = cc h
named_items-text (array vs) v ns items h = cc h
named_items-text (boolean b) v ns items h = cc h
named_items-text nothing v ns items h = cc h
named_items-text (map_of m) v ns items h = cc h
named_items-text other v ns items h = cc h

add_item-Mem :
    (r : CredentialResult (String × Json)) (claims : Claims) (c : String × Json)
    → Memᴰ c (add_item r claims)
    → (r ≡ ok c) ⊎ Memᴰ c claims
unfolding add_item
add_item-Mem (ok (name, value)) claims c h = elim (map_insert-Mem str_compare name value claims h) [
  | inl same ↦ inl (ap ok (sym same))
  | inr old ↦ inr old
]
add_item-Mem (err e) claims c h = inr h

module _ (x : Externals) where
  claims_of_items-Mem :
      (items : List Cbor) (claims : Claims) (c : String × Json)
      → Memᴰ c (claims_of_items x items claims)
      → ((item : Cbor) × Memᴰ item items × (parse_issuer_signed_item x item ≡ ok c)) ⊎ Memᴰ c claims
  unfolding claims_of_items
  claims_of_items-Mem [] claims c h = inr h
  claims_of_items-Mem (i ∷ items) claims c h =
      elim (claims_of_items-Mem items (add_item (parse_issuer_signed_item x i) claims) c h) [
        | inl (item, m, e) ↦ inl (item, Memᴰ.tail m, e)
        | inr here ↦ elim (add_item-Mem (parse_issuer_signed_item x i) claims c here) [
          | inl e ↦ inl (i, Memᴰ.head refl, e)
          | inr old ↦ inr old
        ]
      ]

  -- An entry of the namespaces comes from an entry of the CBOR map with an array.
  abbrev pub FromEntry : List (Cbor × Cbor) → String → Claims → Type 0
  FromEntry es ns claims =
      (v : Cbor) × (items : List Cbor) × Memᴰ (text ns, v) es
      × (as_cbor_array v ≡ some items)
      × (claims ≡ claims_of_items x items [])

  add_namespace-Mem :
      (o : Option (String × List Cbor)) (namespaces : List (String × Claims)) (ns : String)
      (claims : Claims)
      → Memᴰ (ns, claims) (add_namespace x o namespaces)
      → ((items : List Cbor) × (o ≡ some (ns, items)) × (claims ≡ claims_of_items x items []))
        ⊎ Memᴰ (ns, claims) namespaces
  unfolding add_namespace
  add_namespace-Mem none namespaces ns claims h = inr h
  add_namespace-Mem (some (name, items)) namespaces ns claims h =
      elim (map_insert-Mem str_compare name (claims_of_items x items []) namespaces h) [
        | inl same ↦ inl (
          items,
          ap (λ (p : String × Claims). some (p.0, items)) (sym same),
          ap (λ (p : String × Claims). p.1) same,
        )
        | inr old ↦ inr old
      ]

  collect_namespaces-Mem :
      (es : List (Cbor × Cbor)) (namespaces : List (String × Claims)) (ns : String)
      (claims : Claims)
      → Memᴰ (ns, claims) (collect_namespaces x es namespaces)
      → FromEntry es ns claims ⊎ Memᴰ (ns, claims) namespaces
  unfolding collect_namespaces
  collect_namespaces-Mem [] namespaces ns claims h = inr h
  collect_namespaces-Mem ((k, v) ∷ es) namespaces ns claims h =
      elim (collect_namespaces-Mem es (add_namespace x (named_items k v) namespaces) ns claims h) [
        | inl (w, items, m, e, same) ↦ inl (w, items, Memᴰ.tail m, e, same)
        | inr here ↦ elim (add_namespace-Mem (named_items k v) namespaces ns claims here) [
          | inl (items, named, same) ↦
              let (is_text, is_array) = named_items-text k v ns items named in
              inl (v, items, Memᴰ.head (ap (λ (t : Cbor). (t, v)) (sym is_text)), is_array, same)
          | inr old ↦ inr old
        ]
      ]

  -- Every decoded claim of a namespace is read from an item of the array that stands under the
  -- namespace's name.
  pub collect_namespaces-item :
      (es : List (Cbor × Cbor)) (ns : String) (claims : Claims) (c : String × Json)
      → Memᴰ (ns, claims) (collect_namespaces x es [])
      → Memᴰ c claims
      → (v : Cbor) × (items : List Cbor) × (item : Cbor) × Memᴰ (text ns, v) es
        × (as_cbor_array v ≡ some items)
        × Memᴰ item items
        × (parse_issuer_signed_item x item ≡ ok c)
  collect_namespaces-item es ns claims c here there =
      elim (collect_namespaces-Mem es [] ns claims here) [
        | inl (v, items, m, e, same) ↦ elim (claims_of_items-Mem items [] c (rw same at there)) [
          | inl (item, inside, parsed) ↦ (v, items, item, m, e, inside, parsed)
          | inr gone ↦ absurd (Memᴰ.not-nil gone)
        ]
        | inr gone ↦ absurd (Memᴰ.not-nil gone)
      ]
