-- ===== src/Mdoc/Tests.antt =====
-- Runs on a small response: its first byte tells what a byte string encodes.
use mathlib.Core.List.{Memᴰ}
use ewqwe_identity.Prelude.{
  String, ◌≡◌, ◌↔◌, refl, true, false, some, none, [], ◌∷◌, if◌then◌else◌, ◌==◌, str_compare,
}
use ewqwe_identity.Prelude.BtreeMap.{map_get}
use ewqwe_identity.Prelude.Int.{pos, negsuc}
use ewqwe_identity.Prelude.Result.{Result, ok, err}
use ewqwe_identity.Json.{int, obj, field, end}
use ewqwe_identity.Cbor.{
  Cbor, integer, bytes, text, array, map_of, nothing, tag, last, cell, done, entry,
}
use ewqwe_identity.Mdoc.{Externals, Bytes, CoseSign1, CoseKey, int_label, assigned}
use ewqwe_identity.Mdoc.Decode.{
  DecodedMdoc, Claims, decode_mdoc_presentation, parse_issuer_signed_item,
}
use ewqwe_identity.Mdoc.Mso.{ParsedMobileSecurityObject, Digests, validate_mso_validity}
use ewqwe_identity.Mdoc.Mso.Law.{Attested}
use ewqwe_identity.Mdoc.Mso.Validity.{Begun, NotEnded, validate_mso_validity_iff}
use ewqwe_identity.Mdoc.Verify.{
  MdocVerificationResult, Request, claims_json, verify_mdoc_presentation,
}
use ewqwe_identity.Mdoc.Verify.Law.{SignedByIssuer}
use ewqwe_identity.Mdoc.Verify.Law.Items.{verify_mdoc_presentation-Attested}

abbrev pub item_1 : Cbor
item_1 = tag 24 (bytes (2 ∷ []))

abbrev pub response : Cbor
response = map_of (
    entry (text "documents")
      (array (
        cell
          (map_of (
            entry (text "docType") (text "pid") (
              entry (text "issuerSigned")
                (map_of (
                  entry (text "nameSpaces")
                    (map_of (entry (text "ns") (array (cell item_1 last)) done))
                    (entry (text "issuerAuth") nothing done)))
                (entry (text "deviceSigned")
                  (map_of (
                    entry (text "deviceAuth") (map_of (entry (text "deviceSignature") nothing done))
                      done))
                  done))))
          last))
      done)

abbrev pub object_1 : Cbor
object_1 = map_of (
    entry (text "docType") (text "pid") (
      entry (text "digestAlgorithm") (text "SHA-256") (
        entry (text "valueDigests")
          (map_of (entry (text "ns") (map_of (entry (integer (pos 4)) (bytes (7 ∷ [])) done)) done))
          (entry (text "deviceKeyInfo") (map_of (entry (text "deviceKey") nothing done))
            (entry (text "validityInfo") (map_of done) done)))))

abbrev pub inner_1 : Cbor
inner_1 = map_of (
    entry (text "digestID") (integer (pos 4)) (
      entry (text "elementIdentifier") (text "age")
        (entry (text "elementValue") (integer (pos 18)) done)))

abbrev pub read_cbor : Bytes → Result String Cbor
read_cbor (c ∷ cs) =
    if c == 0
    then ok response
    else (if c == 1 then ok object_1 else (if c == 2 then ok inner_1 else ok nothing))
read_cbor [] = err "no bytes"

abbrev pub sign1 : CoseSign1
sign1 = record {
  protected_data = [];
  protected = record {
    alg = some (assigned (negsuc 256));
    rest = (int_label (pos 33), bytes (5 ∷ [])) ∷ [];
  };
  unprotected = record { alg = none; rest = [] };
  payload = some (1 ∷ []);
  signature = [];
}

abbrev pub device_key_1 : CoseKey
device_key_1 = record {
  kty = int_label (pos 2);
  params =
      (int_label (negsuc 0), integer (pos 1))
      ∷ (int_label (negsuc 1), bytes (1 ∷ []))
      ∷ (int_label (negsuc 2), bytes (1 ∷ []))
      ∷ [];
}

abbrev pub mdoc_library : Externals
mdoc_library = record {
  Cert = Bytes;
  PublicKey = Bytes;
  writers = record {
    decimal = λ z. "z";
    from_f64 = λ bits. none;
    encode = λ b. "b64";
    debug = λ v. "value";
  };
  url_safe_no_pad = λ t. ok (0 ∷ []);
  url_safe = λ t. ok (0 ∷ []);
  standard = λ t. ok (0 ∷ []);
  from_reader = read_cbor;
  into_writer = λ v. ok (9 ∷ []);
  sign1_from_slice = λ b. ok sign1;
  key_from_slice = λ b. ok device_key_1;
  tbs_data = λ cose. 8 ∷ [];
  tbs_detached_data = λ cose payload. payload;
  from_der = λ der. ok der;
  verify_cert = λ cas leaf ints. true;
  public_key = λ cert. ok cert;
  signature_to_der = λ r s. ok r;
  verify_ecdsa = λ digest key signed sig. ok true;
  verify_rsa_pkcs1 = λ digest key signed sig. ok true;
  ec_public_key = λ curve px py. ok px;
  hash = λ digest b. ok (7 ∷ []);
  sha256_of = λ b. 6 ∷ [];
  to_ascii_lowercase = λ t. "sha-256";
  decimal_u64 = λ n. "n";
  parse_rfc3339 = λ t. err "no time";
}

abbrev request_1 : Request
request_1 = record {
  client_id = "client";
  nonce = "nonce-1";
  response_uri = "https://rp/response";
  requires_encryption = false;
  response_jwk_thumbprint = none;
}

abbrev result_1 : MdocVerificationResult
result_1 = record {
  claims = obj (field "age" (int (pos 18)) end);
  doc_type = "pid";
  namespace = "ns";
  not_expired = true;
  issuer_trusted = true;
}

abbrev pub claims_1 : Claims
claims_1 = ("age", int (pos 18)) ∷ []

abbrev pub decoded_1 : DecodedMdoc
decoded_1 = record { doc_type = "pid"; namespaces = ("ns", claims_1) ∷ [] }

decodes_1 : decode_mdoc_presentation mdoc_library "response" ≡ ok decoded_1
unfolding decode_mdoc_presentation
decodes_1 = refl

accepts_1 : verify_mdoc_presentation mdoc_library (pos 0) "response" request_1 [] ≡ ok result_1
unfolding verify_mdoc_presentation
accepts_1 = refl

verify_mdoc_presentation-Attested_example :
    (mso : ParsedMobileSecurityObject) × (expected : Digests) × (item : Cbor) × SignedByIssuer
      mdoc_library [] mso true
    × (mso.doc_type ≡ "pid")
    × (map_get str_compare "ns" mso.value_digests ≡ some expected)
    × Attested mdoc_library mso.digest_algorithm expected item
    × (parse_issuer_signed_item mdoc_library item ≡ ok ("age", int (pos 18)))
    × (result_1.claims ≡ claims_json decoded_1.namespaces)
verify_mdoc_presentation-Attested_example =
    verify_mdoc_presentation-Attested mdoc_library (pos 0) "response" request_1 [] result_1
      decoded_1 "ns" claims_1 ("age", int (pos 18)) accepts_1 decodes_1 (Memᴰ.head refl)
      (Memᴰ.head refl)

abbrev mso_1 : ParsedMobileSecurityObject
mso_1 = record {
  doc_type = "pid";
  digest_algorithm = "SHA-256";
  value_digests = [];
  device_key = device_key_1;
  valid_from = none;
  valid_until = some "2020-01-01T00:00:00Z";
}

validate_mso_validity_iff_example :
    ((validate_mso_validity mdoc_library (pos 3) mso_1 ≡ ok true) ↔ (
      Begun mdoc_library (pos 3) none
      × NotEnded mdoc_library (pos 3) (some "2020-01-01T00:00:00Z")))
    × ¬ (validate_mso_validity mdoc_library (pos 3) mso_1 ≡ ok false)
validate_mso_validity_iff_example = validate_mso_validity_iff mdoc_library (pos 3) mso_1
