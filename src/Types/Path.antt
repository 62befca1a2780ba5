-- ===== src/Types/Path.antt =====
-- How types.rs reads and writes a component of a claims path as JSON.
pub mod Tests
use mathlib.Core.Path.{subst}
use ewqwe_identity.Prelude.{
  ℕ, ◌^◌, ◌<◌, ltb, arith, String, ◌≡◌, ◌↔◌, ◌⊎◌, inl, inr, refl, Bool, true, false, Bool-cases,
  if◌then◌else◌,
}
use ewqwe_identity.Prelude.Int.{ℤ, pos, negsuc}
use ewqwe_identity.Prelude.Result.{Result, ok, err, ok-injective}
use ewqwe_identity.Json.{Json, null, bool, int, num, str, arr, obj}
use ewqwe_identity.Types.Dcql.{ClaimsPathComponent, key, index, all}

-- The visitor's own errors, and serde's for a value of another kind.
pub data PathError : Type 0 where
  out_of_range negative unexpected : PathError

unfoldable pub serialize_component : ClaimsPathComponent → Json
serialize_component (key s) = str s
serialize_component (index i) = int (pos i)
serialize_component all = null

-- `u32::try_from`
visit_u64 : ℕ → Result PathError ClaimsPathComponent
visit_u64 v = if ltb v (2 ^ 32) then ok (index v) else err out_of_range

-- `deserialize_any` calls the visitor by the kind of the value. A number that does not fit `i64` is
-- either a `u64` or a float, as its text tells.
unfoldable pub deserialize_component : (String → Bool) → Json → Result PathError ClaimsPathComponent
unfolding visit_u64
deserialize_component is_integer (str v) = ok (key v)
deserialize_component is_integer (int (pos v)) = visit_u64 v
deserialize_component is_integer (int (negsuc v)) = err negative
deserialize_component is_integer (num text) =
    if is_integer text then err out_of_range else err unexpected
deserialize_component is_integer null = ok all
deserialize_component is_integer (bool b) = err unexpected
deserialize_component is_integer (arr xs) = err unexpected
deserialize_component is_integer (obj fs) = err unexpected

-- The component is one that the source's type can hold.
abbrev pub Fits : ClaimsPathComponent → Type 0
Fits (index i) = i < 2 ^ 32
Fits _ = Unit

visit_u64-Fits :
    (v : ℕ) (c : ClaimsPathComponent)
    → visit_u64 v ≡ ok c
    → Fits c × (int (pos v) ≡ serialize_component c)
unfolding visit_u64 serialize_component
visit_u64-Fits v c h = elim (Bool-cases (ltb v (2 ^ 32))) [
  | inl e ↦
      let small : v < 2 ^ 32 = ground arith in
      let same : index v ≡ c = ok-injective (rw (e, visit_u64) at h) in
      subst (λ d. Fits d × (int (pos v) ≡ serialize_component d)) same (small, refl)
  | inr e ↦ cc (rw (e, visit_u64) at h)
]

Fits-visit_u64 : (v : ℕ) → v < 2 ^ 32 → visit_u64 v ≡ ok (index v)
unfolding visit_u64
Fits-visit_u64 v small = ground arith

reads :
    (is_integer : String → Bool) (j : Json) (c : ClaimsPathComponent)
    → deserialize_component is_integer j ≡ ok c
    → Fits c × (j ≡ serialize_component c)
unfolding deserialize_component serialize_component
reads is_integer (str v) c h =
    subst (λ d. Fits d × (str v ≡ serialize_component d)) (ok-injective h) (tt, refl)
reads is_integer (int (pos v)) c h = visit_u64-Fits v c h
reads is_integer (int (negsuc v)) c h = cc h
reads is_integer (num text) c h = elim (Bool-cases (is_integer text)) [
  | inl e ↦ cc (rw (e, deserialize_component) at h)
  | inr e ↦ cc (rw (e, deserialize_component) at h)
]
reads is_integer null c h =
    subst (λ d. Fits d × (null ≡ serialize_component d)) (ok-injective h) (tt, refl)
reads is_integer (bool b) c h = cc h
reads is_integer (arr xs) c h = cc h
reads is_integer (obj fs) c h = cc h

writes :
    (is_integer : String → Bool) (c : ClaimsPathComponent)
    → Fits c
    → deserialize_component is_integer (serialize_component c) ≡ ok c
unfolding deserialize_component serialize_component
writes is_integer (key s) fits = refl
writes is_integer (index i) fits = Fits-visit_u64 i fits
writes is_integer all fits = refl

-- A JSON value is read as a component exactly when it is what the component is written as, and the
-- component's index, if it is one, is below 2 ^ 32: negative and larger numbers are refused.
pub deserialize_component-serialize_component_iff :
    (is_integer : String → Bool) (j : Json) (c : ClaimsPathComponent)
    → (deserialize_component is_integer j ≡ ok c) ↔ (Fits c × (j ≡ serialize_component c))
deserialize_component-serialize_component_iff is_integer j c =
    (reads is_integer j c, λ (fits, same). rw same (writes is_integer c fits))
