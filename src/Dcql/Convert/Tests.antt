-- ===== src/Dcql/Convert/Tests.antt =====
-- Runs of the conversion.
use ewqwe_identity.Prelude.{◌≡◌, refl, true, false, opt_bind, some, none, [], ◌∷◌}
use ewqwe_identity.Prelude.Text.{has_char}
use ewqwe_identity.Json.Map.{get}
use ewqwe_identity.Json.{as_array, items, Json, bool, str, arr, obj, nil, cons, end, field}
use ewqwe_identity.Types.{key, DcqlClaimsQuery, DcqlQuery}
use ewqwe_identity.Dcql.Convert.{
  extract_namespace_from_path, extract_claim_id_from_path, convert_path,
  convert_presentation_definition_to_dcql,
}
use ewqwe_identity.Dcql.Convert.Law.{bracketed, convert_path-bracketed}
use ewqwe_identity.Dcql.Convert.Described.{
  Described, convert_presentation_definition_to_dcql-Described,
}

abbrev age_field : Json
age_field = obj (
    field "intent_to_retain" (bool true)
      (field "path" (arr (cons (str "$['eu.av']['age_over_18']") nil)) end))

abbrev descriptor : Json
descriptor = obj (
    field "constraints" (obj (field "fields" (arr (cons age_field nil)) end))
      (field "id" (str "age") end))

abbrev definition : Json
definition = obj (field "input_descriptors" (arr (cons descriptor nil)) end)

abbrev age_claim : DcqlClaimsQuery
age_claim = record {
  id = some "age_over_18";
  path = key "eu.av" ∷ key "age_over_18" ∷ [];
  values = none;
  intent_to_retain = some true;
}

abbrev converted : DcqlQuery
converted = record {
  credentials =
      record {
        id = "age";
        format = "mso_mdoc";
        meta = record { doctype_value = some "eu.av"; vct_values = none; type_values = none };
        claims = some (age_claim ∷ []);
        claim_sets = none;
        multiple = none;
        trusted_authorities = none;
        require_cryptographic_holder_binding = none;
      }
      ∷ [];
  credential_sets = none;
}

converts : convert_presentation_definition_to_dcql definition ≡ some converted
unfolding convert_presentation_definition_to_dcql items
converts = refl

dotted : extract_claim_id_from_path "$.credentialSubject.name" ≡ some "name"
unfolding extract_claim_id_from_path
dotted = refl

no_quote : has_char b'\'' "eu.av" ≡ false
unfolding has_char
no_quote = refl

no_bracket : has_char b']' "eu.av" ≡ false
unfolding has_char
no_bracket = refl

plain : has_char b'\'' "age" ≡ false
unfolding has_char
plain = refl

described : opt_bind (get definition "input_descriptors") as_array ≡ some (descriptor ∷ [])
unfolding get items
described = refl

convert_path-bracketed_example :
    (extract_namespace_from_path (bracketed "eu.av" "age") ≡ some "eu.av")
    × (extract_claim_id_from_path (bracketed "eu.av" "age") ≡ some "age")
    × (convert_path "mso_mdoc" (bracketed "eu.av" "age") [] ≡ key "eu.av" ∷ key "age" ∷ [])
convert_path-bracketed_example = convert_path-bracketed "eu.av" "age" no_quote no_bracket plain

convert_presentation_definition_to_dcql-Described_example :
    (q : DcqlQuery) × (convert_presentation_definition_to_dcql definition ≡ some q)
    × Described (descriptor ∷ []) q.credentials
    × (q.credential_sets ≡ none)
convert_presentation_definition_to_dcql-Described_example =
    convert_presentation_definition_to_dcql-Described definition descriptor [] described
