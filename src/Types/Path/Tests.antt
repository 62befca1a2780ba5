-- ===== src/Types/Path/Tests.antt =====
-- The largest index, and the one above it.
use ewqwe_identity.Prelude.{◌≡◌, ◌↔◌, refl, true}
use ewqwe_identity.Prelude.Int.{pos}
use ewqwe_identity.Prelude.Result.{ok, err}
use ewqwe_identity.Json.{int}
use ewqwe_identity.Types.Dcql.{index}
use ewqwe_identity.Types.Path.{
  Fits, out_of_range, serialize_component, deserialize_component,
  deserialize_component-serialize_component_iff,
}

largest : deserialize_component (λ t. true) (int (pos 4294967295)) ≡ ok (index 4294967295)
unfolding deserialize_component
largest = refl

too_large : deserialize_component (λ t. true) (int (pos 4294967296)) ≡ err out_of_range
unfolding deserialize_component
too_large = refl

deserialize_component-serialize_component_iff_example :
    (deserialize_component (λ t. true) (int (pos 7)) ≡ ok (index 7))
    ↔ (Fits (index 7) × (int (pos 7) ≡ serialize_component (index 7)))
deserialize_component-serialize_component_iff_example =
    deserialize_component-serialize_component_iff (λ t. true) (int (pos 7)) (index 7)
