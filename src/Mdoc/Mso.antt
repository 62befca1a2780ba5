-- ===== src/Mdoc/Mso.antt =====
-- mdoc_verification.rs: the mobile security object, the digests of the items, and the validity.
pub mod Law
pub mod Validity
use ewqwe_identity.Prelude.{
  ℕ, compare, String, ◌<>◌, str_compare, str_eq, Bool, true, false, not, ◌&&◌, ◌||◌, Option, some,
  none, List, [], ◌∷◌, if◌then◌else◌, ◌==◌,
}
use ewqwe_identity.Prelude.BtreeMap.{map_insert, map_get}
use ewqwe_identity.Prelude.Int.{ℤ, ltb_ℤ}
use ewqwe_identity.Prelude.Result.{Result, ok, err, ◌>>=◌, ◌>>◌}
use ewqwe_identity.Cbor.{
  Cbor, tag, bytes, text, as_bytes, unwrap_cbor_tags, as_cbor_map, as_cbor_array, cbor_map_get,
  cbor_map_get_text, cbor_value_to_text, cbor_integer_to_u64,
}
use ewqwe_identity.Credential.{CredentialResult, invalid_presentation, need, because}
use ewqwe_identity.Mdoc.{Externals, Bytes, Digest, sha256, sha384, sha512, CoseKey}
use ewqwe_identity.Mdoc.Cose.{must}

abbrev pub Digests : Type 0
Digests = List (ℕ × Bytes)

pub record ParsedMobileSecurityObject : Type 0 where
  pub doc_type : String
  pub digest_algorithm : String
  pub value_digests : List (String × Digests)
  pub device_key : CoseKey
  pub valid_from : Option String
  pub valid_until : Option String

-- `unwrap_cbor_tags`, `as_cbor_map` and the error.
unfoldable pub map_within : Cbor → String → CredentialResult (List (Cbor × Cbor))
unfolding as_cbor_map unwrap_cbor_tags
map_within value what = need (as_cbor_map (unwrap_cbor_tags value)) what

unfoldable pub parse_digest_map : List (Cbor × Cbor) → Digests → CredentialResult Digests
unfolding cbor_integer_to_u64 as_bytes unwrap_cbor_tags map_insert
parse_digest_map [] digests = ok digests
parse_digest_map ((k, v) ∷ es) digests = do
  digest_id ← need (cbor_integer_to_u64 k) "valueDigests digestID is not an integer"
  digest ← need (as_bytes (unwrap_cbor_tags v)) "valueDigests digest value is not a byte string"
  parse_digest_map es (map_insert compare digest_id digest digests)

unfoldable pub parse_value_digests :
    List (Cbor × Cbor) → List (String × Digests) → CredentialResult (List (String × Digests))
unfolding parse_digest_map map_insert map_within
parse_value_digests [] parsed = ok parsed
parse_value_digests ((text namespace, v) ∷ es) parsed = do
  ns_map ← map_within v "valueDigests namespace entry is not a map"
  digests ← parse_digest_map ns_map []
  parse_value_digests es (map_insert str_compare namespace digests parsed)
parse_value_digests ((k, v) ∷ es) parsed = parse_value_digests es parsed

-- `!=` on two byte vectors, negated.
unfoldable pub bytes_eq : Bytes → Bytes → Bool
bytes_eq [] [] = true
bytes_eq (a ∷ as_) (b ∷ bs) = (a == b) && bytes_eq as_ bs
bytes_eq _ _ = false

digest_of : String → Option Digest
digest_of name =
    if str_eq name "sha-256" || str_eq name "sha256"
    then some sha256
    else (if str_eq name "sha-384" || str_eq name "sha384"
        then some sha384
        else (if str_eq name "sha-512" || str_eq name "sha512" then some sha512 else none))

-- The bytes inside an item.
unfoldable pub item_bytes : Cbor → CredentialResult Bytes
unfolding as_bytes
item_bytes (tag n inner) =
    if n == 24
    then need (as_bytes inner) "IssuerSignedItem tag 24 does not contain bytes"
    else err (invalid_presentation "IssuerSignedItem is not wrapped as bytes")
item_bytes (bytes b) = ok b
item_bytes v = err (invalid_presentation "IssuerSignedItem is not wrapped as bytes")

module _ (x : Externals) where
  payload_bytes : Bytes → CredentialResult Cbor
  payload_bytes b = because "failed to parse MobileSecurityObject bytes" (x.from_reader b)

  tag24_payload : Cbor → CredentialResult Cbor
  unfolding payload_bytes
  tag24_payload (bytes b) = payload_bytes b
  tag24_payload v = ok v

  unwrap_payload : Cbor → CredentialResult Cbor
  unfolding payload_bytes tag24_payload
  unwrap_payload (tag n inner) = if n == 24 then tag24_payload inner else ok (tag n inner)
  unwrap_payload (bytes b) = payload_bytes b
  unwrap_payload v = ok v

  parse_device_key : List (Cbor × Cbor) → CredentialResult CoseKey
  unfolding cbor_map_get
  parse_device_key device_key_info = do
    value ← need (cbor_map_get device_key_info "deviceKey") "deviceKeyInfo missing deviceKey"
    b ← because "failed to serialize deviceKey" (x.into_writer value)
    because "failed to parse deviceKey COSE_Key" (x.key_from_slice b)

  unfoldable pub parse_mobile_security_object : Bytes → CredentialResult ParsedMobileSecurityObject
  unfolding unwrap_payload cbor_map_get_text cbor_map_get parse_value_digests parse_device_key
      cbor_value_to_text map_within
  parse_mobile_security_object payload = do
    outer ← because "failed to parse issuerAuth payload CBOR" (x.from_reader payload)
    cbor ← unwrap_payload outer
    map ← map_within cbor "MobileSecurityObject is not a map"
    doc_type ← need (cbor_map_get_text map "docType") "MobileSecurityObject missing docType"
    digest_algorithm ←
        need (cbor_map_get_text map "digestAlgorithm")
          "MobileSecurityObject missing digestAlgorithm"
    digests ← need (cbor_map_get map "valueDigests") "MobileSecurityObject missing valueDigests"
    digests_map ← map_within digests "valueDigests is not a map"
    parsed_digests ← parse_value_digests digests_map []
    key_info ← need (cbor_map_get map "deviceKeyInfo") "MobileSecurityObject missing deviceKeyInfo"
    device_key_info ← map_within key_info "deviceKeyInfo is not a map"
    device_key ← parse_device_key device_key_info
    validity ← need (cbor_map_get map "validityInfo") "MobileSecurityObject missing validityInfo"
    validity_info ← map_within validity "validityInfo is not a map"
    ok (record {
      doc_type = doc_type;
      digest_algorithm = digest_algorithm;
      value_digests = parsed_digests;
      device_key = device_key;
      valid_from = cbor_value_to_text (cbor_map_get validity_info "validFrom");
      valid_until = cbor_value_to_text (cbor_map_get validity_info "validUntil");
    })

  unfoldable pub hash_issuer_signed_item : String → Bytes → CredentialResult Bytes
  unfolding digest_of
  hash_issuer_signed_item algorithm b = do
    let name = x.to_ascii_lowercase algorithm
    digest ← need (digest_of name) ("unsupported MobileSecurityObject digestAlgorithm: " <> name)
    because "failed to hash IssuerSignedItem" (x.hash digest b)

  -- One item against the digests of its namespace.
  unfoldable pub verify_item : String → String → Digests → Cbor → CredentialResult (Unit {0})
  unfolding item_bytes cbor_map_get cbor_integer_to_u64 map_get hash_issuer_signed_item bytes_eq
      must map_within
  verify_item algorithm namespace expected item = do
    inner_map_bytes ← item_bytes item
    item_bytes_for_hashing ←
        because "failed to re-encode IssuerSignedItemBytes for digest computation"
          (x.into_writer item)
    inner ← because "failed to parse IssuerSignedItem bytes" (x.from_reader inner_map_bytes)
    inner_map ← map_within inner "IssuerSignedItem is not a map"
    id_value ← need (cbor_map_get inner_map "digestID") "IssuerSignedItem missing digestID"
    digest_id ← need (cbor_integer_to_u64 id_value) "IssuerSignedItem digestID is not an integer"
    expected_digest ← need (map_get compare digest_id expected) (
        "MobileSecurityObject missing expected digest for namespace "
        <> namespace
        <> " digestID "
        <> x.decimal_u64 digest_id)
    actual_digest ← hash_issuer_signed_item algorithm item_bytes_for_hashing
    must (bytes_eq actual_digest expected_digest) (
        "IssuerSignedItem digest mismatch for namespace "
        <> namespace
        <> " digestID "
        <> x.decimal_u64 digest_id)

  unfoldable pub verify_items : String → String → Digests → List Cbor → CredentialResult (Unit {0})
  unfolding verify_item
  verify_items algorithm namespace expected [] = ok tt
  verify_items algorithm namespace expected (item ∷ items) = do
    verify_item algorithm namespace expected item
    verify_items algorithm namespace expected items

  -- The loop over the namespaces; a key that is no text is passed over.
  unfoldable pub verify_issuer_signed_item_digests :
      List (Cbor × Cbor) → ParsedMobileSecurityObject → CredentialResult (Unit {0})
  unfolding map_get as_cbor_array unwrap_cbor_tags verify_items
  verify_issuer_signed_item_digests [] mso = ok tt
  verify_issuer_signed_item_digests ((text namespace, items_value) ∷ es) mso = do
    expected ←
        need (map_get str_compare namespace mso.value_digests)
          ("MobileSecurityObject has no valueDigests entry for namespace " <> namespace)
    items ←
        need (as_cbor_array (unwrap_cbor_tags items_value))
          ("namespace " <> namespace <> " is not an array")
    verify_items mso.digest_algorithm namespace expected items
    verify_issuer_signed_item_digests es mso
  verify_issuer_signed_item_digests ((k, v) ∷ es) mso = verify_issuer_signed_item_digests es mso

  unfoldable pub not_before : ℤ → Option String → CredentialResult (Unit {0})
  unfolding must
  not_before now none = ok tt
  not_before now (some valid_from) = do
    t ← because "failed to parse validFrom from MSO" (x.parse_rfc3339 valid_from)
    must (not (ltb_ℤ now t)) "MobileSecurityObject is not yet valid"

  unfoldable pub not_after : ℤ → Option String → CredentialResult (Unit {0})
  unfolding must
  not_after now none = ok tt
  not_after now (some valid_until) = do
    t ← because "failed to parse validUntil from MSO" (x.parse_rfc3339 valid_until)
    must (not (ltb_ℤ t now)) "MobileSecurityObject has expired"

  unfoldable pub validate_mso_validity : ℤ → ParsedMobileSecurityObject → CredentialResult Bool
  unfolding not_before not_after
  validate_mso_validity now mso = do
    not_before now mso.valid_from
    not_after now mso.valid_until
    ok true
