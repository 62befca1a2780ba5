-- ===== src/Dcql/Convert/Described.antt =====
-- What the conversion makes of the descriptors of a definition.
use mathlib.Core.Path.{subst}
use ewqwe_identity.Prelude.{
  String, ◌≡◌, ◌⊎◌, inl, inr, refl, false, ◌&&◌, str_eq, Bool-cases, Option, some, none,
  Option-cases, is_empty, opt_map, opt_bind, List, [], ◌∷◌, map, All,
}
use ewqwe_identity.Prelude.Result.{some-injective}
use ewqwe_identity.Json.{Json, str, as_str, as_array}
use ewqwe_identity.Json.Map.{get}
use ewqwe_identity.Types.{DcqlClaimsQuery, DcqlCredentialQuery, DcqlQuery}
use ewqwe_identity.Dcql.Convert.{
  filter_map, extract_namespace_from_path, extract_claim_id_from_path, bracket_path, convert_path,
  claim_of, convert_field, convert_claims, format_of, descriptor_id, convert_descriptor, query_of,
  convert_presentation_definition_to_dcql,
}

-- The text under "id", or "credential" where there is none.
abbrev pub HasId : Json → DcqlCredentialQuery → Type 0
HasId d c =
    ((s : String) × (get d "id" ≡ some (str s)) × (c.id ≡ s))
    ⊎ (((s : String) → ¬ (get d "id" ≡ some (str s))) × (c.id ≡ "credential"))

abbrev pub HasPath : DcqlClaimsQuery → Type 0
HasPath claim = is_empty claim.path ≡ false

abbrev pub HasPaths : Option (List DcqlClaimsQuery) → Type 0
HasPaths none = Unit
HasPaths (some claims) = All HasPath claims

-- One credential for each descriptor, in order.
abbrev pub Described : List Json → List DcqlCredentialQuery → Type 0
Described [] [] = Unit
Described (d ∷ ds) (c ∷ cs) = HasId d c × HasPaths c.claims × Described ds cs
Described _ _ = ⊥

convert_descriptor-HasId : (d : Json) → HasId d (convert_descriptor d)
unfolding convert_descriptor descriptor_id
convert_descriptor-HasId d = by_id (get d "id") refl
  where
    by_id : (v : Option Json) → get d "id" ≡ v → HasId d (convert_descriptor d)
    by_id none e = inr (λ s h. cc (e, h), rw e refl)
    by_id (some (str s)) e = inl (s, e, rw e refl)
    by_id (some v) e = inr (λ s h. cc (e, h), rw e refl)

convert_path-nonempty :
    (format p : String) (ps : List String) → is_empty (convert_path format p ps) ≡ false
unfolding convert_path bracket_path
convert_path-nonempty format p ps = elim (Bool-cases (str_eq format "mso_mdoc" && is_empty ps)) [
  | inr e ↦ rw (e, convert_path) refl
  | inl e ↦ elim (Option-cases (extract_namespace_from_path p)) [
    | inl n ↦ rw (e, n, convert_path) refl
    | inr (ns, n) ↦ elim (Option-cases (extract_claim_id_from_path p)) [
      | inl k ↦ rw (e, n, k, convert_path) refl
      | inr (elem, k) ↦ rw (e, n, k, convert_path) refl
    ]
  ]
]

claim_of-HasPath :
    (format : String) (field : Json) (ps : List String) {claim : DcqlClaimsQuery}
    → claim_of format field ps ≡ some claim
    → HasPath claim
unfolding claim_of
claim_of-HasPath format field [] h = cc h
claim_of-HasPath format field (p ∷ ps) h =
    subst HasPath (some-injective h) (convert_path-nonempty format p ps)

convert_field-HasPath :
    (format : String) (field : Json) {claim : DcqlClaimsQuery}
    → convert_field format field ≡ some claim
    → HasPath claim
unfolding convert_field
convert_field-HasPath format field h = elim (Option-cases (opt_bind (get field "path") as_array)) [
  | inl e ↦ cc (rw (e, convert_field) at h)
  | inr (path, e) ↦
      claim_of-HasPath format field (filter_map as_str path) (rw (e, convert_field) at h)
]

filter_map-All :
    {A B : Type 0} (P : B → Type 0) (f : A → Option B) (xs : List A)
    → ((a : A) (b : B) → f a ≡ some b → P b)
    → All P (filter_map f xs)
unfolding filter_map
filter_map-All P f [] h = tt
filter_map-All P f (x ∷ xs) h = elim (Option-cases (f x)) [
  | inl e ↦ rw (e, filter_map) (filter_map-All P f xs h)
  | inr (b, e) ↦ rw (e, filter_map) (h x b e, filter_map-All P f xs h)
]

convert_claims-HasPaths : (format : String) (d : Json) → HasPaths (convert_claims format d)
unfolding convert_claims
convert_claims-HasPaths format d =
    by_fields (opt_bind (opt_bind (get d "constraints") (λ c. get c "fields")) as_array)
  where
    by_fields :
        (fields : Option (List Json))
        → HasPaths (opt_map (filter_map (convert_field format)) fields)
    by_fields none = tt
    by_fields (some fs) =
        filter_map-All HasPath (convert_field format) fs
          (λ field claim. convert_field-HasPath format field)

converted : (ds : List Json) → Described ds (map convert_descriptor ds)
unfolding convert_descriptor
converted [] = tt
converted (d ∷ ds) =
    (convert_descriptor-HasId d, convert_claims-HasPaths (format_of d) d, converted ds)

-- A definition with at least one input descriptor gives a query without credential sets, in which
-- each descriptor, in its order, has one credential. Its id is the text under "id" of the descriptor,
-- or "credential" if there is no text there, and each of its claims has a path with a component.
pub convert_presentation_definition_to_dcql-Described :
    (definition d : Json) (ds : List Json)
    → opt_bind (get definition "input_descriptors") as_array ≡ some (d ∷ ds)
    → (q : DcqlQuery) × (convert_presentation_definition_to_dcql definition ≡ some q)
      × Described (d ∷ ds) q.credentials
      × (q.credential_sets ≡ none)
unfolding convert_presentation_definition_to_dcql query_of
convert_presentation_definition_to_dcql-Described definition d ds h = (
  record { credentials = map convert_descriptor (d ∷ ds); credential_sets = none },
  rw h refl,
  converted (d ∷ ds),
  refl,
)
