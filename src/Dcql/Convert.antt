-- ===== src/Dcql/Convert.antt =====
-- `convert_presentation_definition_to_dcql` of crates/ewqwe-openid4vp/src/dcql.rs.
pub mod Law
pub mod Described
pub mod Tests
use ewqwe_identity.Prelude.{
  String, Bool, true, false, ◌&&◌, ◌||◌, str_eq, Option, some, none, is_some, is_empty, get_or,
  opt_map, opt_bind, or_opt, first, List, [], ◌∷◌, map, if◌then◌else◌,
}
use ewqwe_identity.Prelude.Text.{has_char, split}
use ewqwe_identity.Prelude.Pattern.{
  has_prefix, contains_text, split_text, trim_start_matches, trim_end_matches,
}
use ewqwe_identity.Json.{Json, as_str, as_bool, as_array}
use ewqwe_identity.Json.Map.{get}
use ewqwe_identity.Types.{
  ClaimsPathComponent, key, index, all, DcqlClaimsQuery, DcqlCredentialMeta, DcqlCredentialQuery,
  DcqlQuery,
}

unfoldable pub filter_map : {A B : Type 0} → (A → Option B) → List A → List B
filter_map f [] = []
filter_map f (x ∷ xs) = elim (f x) [ none ↦ filter_map f xs | some y ↦ y ∷ filter_map f xs ]

unfoldable pub last_of : List String → Option String
last_of [] = none
last_of (x ∷ []) = some x
last_of (x ∷ y ∷ xs) = last_of (y ∷ xs)

-- The first part, if there are at least two.
unfoldable pub namespace_part : List String → Option String
unfolding trim_start_matches trim_end_matches
namespace_part (p ∷ q ∷ parts) = some (trim_end_matches "'" (trim_start_matches "$['" p))
namespace_part _ = none

unfoldable pub extract_namespace_from_path : String → Option String
unfolding has_prefix split_text namespace_part
extract_namespace_from_path path =
    if has_prefix "$[" path then namespace_part (split_text "']['" path) else none

unfoldable pub extract_claim_id_from_path : String → Option String
unfolding contains_text split_text last_of trim_end_matches has_char split
extract_claim_id_from_path path =
    if contains_text "']['" path
    then opt_map (λ p. trim_end_matches "'" (trim_end_matches "']" p))
        (last_of (split_text "']['" path))
    else (if has_char b'.' path then last_of (split b'.' path) else none)

has : Json → String → Bool
unfolding get
has v k = is_some (get v k)

format_name : Json → Option String
unfolding has
format_name f =
    if has f "mso_mdoc"
    then some "mso_mdoc"
    else (if has f "jwt_vc" || has f "jwt_vc_json"
        then some "jwt_vc_json"
        else (if has f "ldp_vc" then some "ldp_vc" else none))

unfoldable pub format_of : Json → String
unfolding get format_name
format_of descriptor = get_or (opt_bind (get descriptor "format") format_name) "mso_mdoc"

-- The two components of a bracket path, if it is one.
unfoldable pub bracket_path : String → Option (List ClaimsPathComponent)
unfolding extract_namespace_from_path extract_claim_id_from_path
bracket_path p =
    opt_bind (extract_namespace_from_path p)
      (λ ns. opt_map (λ elem. key ns ∷ key elem ∷ []) (extract_claim_id_from_path p))

unfoldable pub convert_path : String → String → List String → List ClaimsPathComponent
unfolding bracket_path
convert_path format p ps =
    if str_eq format "mso_mdoc" && is_empty ps
    then get_or (bracket_path p) (map key (p ∷ ps))
    else map key (p ∷ ps)

claim_of : String → Json → List String → Option DcqlClaimsQuery
unfolding get extract_claim_id_from_path convert_path
claim_of format field [] = none
claim_of format field (p ∷ ps) = some (record {
  id = or_opt (opt_bind (get field "id") as_str) (extract_claim_id_from_path p);
  path = convert_path format p ps;
  values = none;
  intent_to_retain = opt_bind (get field "intent_to_retain") as_bool;
})

-- The closure of the `filter_map` over the fields.
unfoldable pub convert_field : String → Json → Option DcqlClaimsQuery
unfolding get claim_of filter_map
convert_field format field =
    opt_bind (opt_bind (get field "path") as_array)
      (λ path. claim_of format field (filter_map as_str path))

unfoldable pub convert_claims : String → Json → Option (List DcqlClaimsQuery)
unfolding get convert_field filter_map
convert_claims format descriptor =
    opt_map (filter_map (convert_field format))
      (opt_bind (opt_bind (get descriptor "constraints") (λ c. get c "fields")) as_array)

key_text : ClaimsPathComponent → Option String
key_text (key s) = some s
key_text (index i) = none
key_text all = none

doctype_of : Json → Option (List DcqlClaimsQuery) → Option String
unfolding get key_text
doctype_of descriptor claims =
    or_opt
      (opt_bind
        (opt_bind (opt_bind (get descriptor "format") (λ f. get f "mso_mdoc"))
          (λ m. get m "doctype"))
        as_str)
      (opt_bind (opt_bind claims first) (λ (c : DcqlClaimsQuery). opt_bind (first c.path) key_text))

unfoldable pub descriptor_id : Json → String
unfolding get
descriptor_id descriptor = get_or (opt_bind (get descriptor "id") as_str) "credential"

unfoldable pub convert_descriptor : Json → DcqlCredentialQuery
unfolding descriptor_id format_of convert_claims doctype_of
convert_descriptor descriptor =
    let format = format_of descriptor in
    let claims = convert_claims format descriptor in
    record {
      id = descriptor_id descriptor;
      format = format;
      meta = record {
        doctype_value = doctype_of descriptor claims;
        vct_values = none;
        type_values = none;
      };
      claims = claims;
      claim_sets = none;
      multiple = none;
      trusted_authorities = none;
      require_cryptographic_holder_binding = none;
    }

unfoldable pub query_of : List DcqlCredentialQuery → Option DcqlQuery
query_of [] = none
query_of (c ∷ cs) = some (record { credentials = c ∷ cs; credential_sets = none })

unfoldable pub convert_presentation_definition_to_dcql : Json → Option DcqlQuery
unfolding get convert_descriptor query_of
convert_presentation_definition_to_dcql presentation_definition =
    opt_bind (opt_bind (get presentation_definition "input_descriptors") as_array)
      (λ ds. query_of (map convert_descriptor ds))
