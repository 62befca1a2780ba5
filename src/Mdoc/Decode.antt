-- ===== src/Mdoc/Decode.antt =====
-- mdoc_decoder.rs: the claims, without any cryptography.
pub mod Law
use ewqwe_identity.Prelude.{
  ℕ, String, ◌<>◌, Bool, true, false, Option, some, none, is_some, List, [], ◌∷◌, str_compare,
  if◌then◌else◌, first, ◌==◌,
}
use ewqwe_identity.Prelude.BtreeMap.{map_insert}
use ewqwe_identity.Prelude.Result.{Result, ok, err, ◌>>=◌}
use ewqwe_identity.Json.{Json}
use ewqwe_identity.Cbor.{
  Cbor, tag, bytes, text, unwrap_cbor_tags, as_cbor_map, as_cbor_array, cbor_map_get,
  cbor_map_get_text, cbor_type_name, cbor_to_json, map_of,
}
use ewqwe_identity.Credential.{CredentialResult, invalid_presentation, need, because}
use ewqwe_identity.Mdoc.{Externals, Bytes}

abbrev pub Claims : Type 0
Claims = List (String × Json)

pub record DecodedMdoc : Type 0 where
  pub doc_type : String
  pub namespaces : List (String × Claims)

unfoldable pub extract_document : Cbor → CredentialResult Cbor
unfolding unwrap_cbor_tags as_cbor_map as_cbor_array cbor_map_get cbor_type_name
extract_document cbor = do
  let val = unwrap_cbor_tags cbor
  map ← need (as_cbor_map val) ("expected top-level CBOR map, got " <> cbor_type_name val)
  elim (cbor_map_get map "documents") [
    | some docs_val ↦ need (as_cbor_array docs_val) "'documents' is not an array" >>= λ docs.
        need (first docs) "'documents' array is empty"
    | none ↦
        if is_some (cbor_map_get map "docType")
        then ok val
        else err (invalid_presentation "CBOR map has neither 'documents' nor 'docType'")
  ]

-- What the arm for other values answers.
unfoldable pub bare_map : Cbor → CredentialResult Cbor
unfolding as_cbor_map cbor_type_name
bare_map value =
    if is_some (as_cbor_map value)
    then ok value
    else err (invalid_presentation ("expected Tag(24) or Bytes, got " <> cbor_type_name value))

-- One item: an item that does not parse is passed over.
unfoldable pub add_item : CredentialResult (String × Json) → Claims → Claims
unfolding map_insert
add_item (ok (name, value)) claims = map_insert str_compare name value claims
add_item (err e) claims = claims

-- The name and the items of an entry, if the key is a text and the value an array.
unfoldable pub named_items : Cbor → Cbor → Option (String × List Cbor)
unfolding as_cbor_array
named_items (text ns_name) ns_items = elim (as_cbor_array ns_items) [
  | none ↦ none
  | some items_array ↦ some (ns_name, items_array)
]
named_items k v = none

module _ (x : Externals) where
  unfoldable pub decode_base64 : String → Result String Bytes
  decode_base64 encoded = elim (x.url_safe_no_pad encoded) [
    | ok b ↦ ok b
    | err e ↦ elim (x.url_safe encoded) [ ok b ↦ ok b | err f ↦ x.standard encoded ]
  ]

  of_tag24 : Cbor → CredentialResult Cbor
  of_tag24 (bytes b) = because "Tag 24 inner CBOR" (x.from_reader b)
  of_tag24 value = ok value

  unfoldable pub unwrap_tag24_bytes : Cbor → CredentialResult Cbor
  unfolding bare_map of_tag24
  unwrap_tag24_bytes (tag n inner) = if n == 24 then of_tag24 inner else bare_map (tag n inner)
  unwrap_tag24_bytes (bytes b) = because "untagged bytes CBOR" (x.from_reader b)
  unwrap_tag24_bytes value = bare_map value

  unfoldable pub parse_issuer_signed_item : Cbor → CredentialResult (String × Json)
  unfolding unwrap_tag24_bytes as_cbor_map cbor_map_get_text cbor_map_get cbor_to_json
  parse_issuer_signed_item val = do
    inner_cbor ← unwrap_tag24_bytes val
    map ← need (as_cbor_map inner_cbor) "IssuerSignedItem is not a map"
    element_id ← need (cbor_map_get_text map "elementIdentifier") "missing 'elementIdentifier'"
    element_value ← need (cbor_map_get map "elementValue") "missing 'elementValue'"
    ok (element_id, cbor_to_json x.writers element_value)

  unfoldable pub claims_of_items : List Cbor → Claims → Claims
  unfolding add_item parse_issuer_signed_item
  claims_of_items [] claims = claims
  claims_of_items (item ∷ rest) claims =
      claims_of_items rest (add_item (parse_issuer_signed_item item) claims)

  unfoldable pub add_namespace :
      Option (String × List Cbor) → List (String × Claims) → List (String × Claims)
  unfolding map_insert claims_of_items
  add_namespace none namespaces = namespaces
  add_namespace (some (ns_name, items_array)) namespaces =
      map_insert str_compare ns_name (claims_of_items items_array []) namespaces

  unfoldable pub collect_namespaces :
      List (Cbor × Cbor) → List (String × Claims) → List (String × Claims)
  unfolding add_namespace named_items
  collect_namespaces [] namespaces = namespaces
  collect_namespaces ((k, v) ∷ rest) namespaces =
      collect_namespaces rest (add_namespace (named_items k v) namespaces)

  unfoldable pub parse_document : Cbor → CredentialResult DecodedMdoc
  unfolding unwrap_cbor_tags as_cbor_map cbor_map_get_text cbor_map_get collect_namespaces
  parse_document value = do
    map ← need (as_cbor_map (unwrap_cbor_tags value)) "Document is not a CBOR map"
    doc_type ← need (cbor_map_get_text map "docType") "missing 'docType'"
    issuer_signed ← need (cbor_map_get map "issuerSigned") "missing 'issuerSigned'"
    issuer_signed_map ←
        need (as_cbor_map (unwrap_cbor_tags issuer_signed)) "'issuerSigned' is not a map"
    name_spaces_val ←
        need (cbor_map_get issuer_signed_map "nameSpaces") "missing 'nameSpaces' in issuerSigned"
    name_spaces_map ←
        need (as_cbor_map (unwrap_cbor_tags name_spaces_val)) "'nameSpaces' is not a map"
    ok (record { doc_type = doc_type; namespaces = collect_namespaces name_spaces_map [] })

  unfoldable pub decode_mdoc_presentation : String → CredentialResult DecodedMdoc
  unfolding decode_base64 extract_document parse_document
  decode_mdoc_presentation encoded = do
    b ← because "base64 decode failed" (decode_base64 encoded)
    cbor ← because "CBOR parse failed" (x.from_reader b)
    document ← extract_document cbor
    parse_document document
