-- ===== src/SdJwt/Tests.antt =====
-- Runs on small presentations: the first letter of a base64 text stands for what it encodes.
use Prim.Native.Char.{code}
use ewqwe_identity.Prelude.{
  ℕ, String, ◌≡◌, ◌⊎◌, ◌↔◌, refl, inl, inr, true, false, Option, some, none, List, [], ◌∷◌,
  if◌then◌else◌, ◌==◌, get_or,
}
use ewqwe_identity.Prelude.Int.{pos}
use ewqwe_identity.Prelude.Text.{split, split_once, has_char}
use ewqwe_identity.Prelude.Result.{Result, ok, err}
use ewqwe_identity.Json.{Json, int, str, arr, obj, nil, cons, end, field, Fields, as_object}
use ewqwe_identity.Json.Map.{insert}
use ewqwe_identity.SdJwt.{DecodedSdJwt, is_kb_jwt}
use ewqwe_identity.SdJwt.Decode.{
  Codec, decode_json, second, nonce_of, decode_disclosure, payload_of, decode_sd_jwt_presentation,
}
use ewqwe_identity.SdJwt.Keys.{Jose, es256}
use ewqwe_identity.SdJwt.Verify.{last_kb_jwt, verify_sd_jwt_signatures}
use ewqwe_identity.SdJwt.Verify.Law.{
  AllValid, IssuedBy, HolderBound, SignedByHolder, verify_sd_jwt_signatures-AllValid_iff,
}
use ewqwe_identity.SdJwt.Nonce.{decode_sd_jwt_presentation-nonce_signed}
use ewqwe_identity.SdJwt.Forged.{with_part, decode_sd_jwt_presentation-forged}
use ewqwe_identity.SdJwt.Origin.{FromPayload, FromDisclosure, decode_sd_jwt_presentation-origin}

abbrev pub holder_jwk : Json
holder_jwk = obj (field "e" (str "3") (field "kty" (str "RSA") (field "n" (str "7") end)))

abbrev pub payload_1 : Json
payload_1 = obj (
    field "cnf" (obj (field "jwk" holder_jwk end))
      (field "iss" (str "issuer") (field "name" (str "Ada") (field "vct" (str "pid") end))))

abbrev pub kb_payload : Json
kb_payload = obj (field "nonce" (str "nonce-1") end)

abbrev pub read_json : List ℕ → Result String Json
read_json (c ∷ cs) =
    if c == b'p'
    then ok payload_1
    else (if c == b'k'
        then ok kb_payload
        else (if c == b'd'
            then ok (arr (cons (str "salt") (cons (str "age") (cons (int (pos 18)) nil))))
            else err "no JSON"))
read_json [] = err "no bytes"

abbrev pub read_base64 : String → Result String (List ℕ)
read_base64 String.[] = err "empty"
read_base64 (String.◌∷◌ c s) = ok (code c ∷ [])

abbrev pub codec : Codec
codec = record {
  url_safe_no_pad = read_base64;
  url_safe = read_base64;
  from_slice = read_json;
  from_timestamp = λ z. none;
}

-- Every certificate is its text, and every key is the text of what it comes from.
abbrev pub jose : Jose
jose = record {
  Cert = String;
  PublicKey = String;
  EcKey = String;
  RsaKey = String;
  DecodingKey = String;
  standard = read_base64;
  url_safe_no_pad = read_base64;
  from_der = λ der. ok "leaf";
  verify_cert = λ cas leaf ints. true;
  public_key = λ cert. ok cert;
  ec_key = λ key. ok key;
  rsa = λ key. ok key;
  from_affine_coordinates = λ curve x y. ok "point";
  ec_to_pem = λ key. ok (1 ∷ []);
  rsa_to_pem = λ key. ok (2 ∷ []);
  from_ec_pem = λ pem. ok "issuer key";
  from_rsa_pem = λ pem. ok "issuer key";
  from_rsa_components = λ n e. ok n;
  from_ed_der = λ der. "ed";
  decode_header = λ jwt. ok (record { alg = es256; x5c = some ("leaf" ∷ []) });
  decode = λ jwt key alg. decode_json codec (second (split b'.' jwt));
  debug = λ alg. "alg";
}

abbrev pub bound : String
bound = "h.p.s~d1~eyJh.k.s"

abbrev pub unbound : String
unbound = "h.p.s~d1~"

abbrev pub claims_1 : Fields
claims_1 = field "age" (int (pos 18)) (field "name" (str "Ada") end)

abbrev pub decoded_as : Option String → DecodedSdJwt
decoded_as found = record {
  vct = "pid";
  claims = claims_1;
  issuer = "issuer";
  issued_at = none;
  expires_at = none;
  nonce = found;
}

pub decodes_bound : decode_sd_jwt_presentation codec bound ≡ ok (decoded_as (some "nonce-1"))
unfolding decode_sd_jwt_presentation
decodes_bound = refl

pub decodes_unbound : decode_sd_jwt_presentation codec unbound ≡ ok (decoded_as none)
unfolding decode_sd_jwt_presentation
decodes_unbound = refl

accepts_bound : AllValid (verify_sd_jwt_signatures jose bound [])
unfolding verify_sd_jwt_signatures decode_json second
accepts_bound = (refl, refl, refl)

verify_sd_jwt_signatures-AllValid_iff_example :
    AllValid (verify_sd_jwt_signatures jose bound []) ↔ (
      (claims : Json) × IssuedBy jose [] (split_once b'~' bound).0 claims
      × HolderBound jose (split_once b'~' bound).1 claims)
verify_sd_jwt_signatures-AllValid_iff_example = verify_sd_jwt_signatures-AllValid_iff jose bound []

decode_sd_jwt_presentation-nonce_signed_example :
    (claims : Json) × (kb_jwt : String) × (payload : Json) × IssuedBy jose []
      (split_once b'~' bound).0
      claims
    × (last_kb_jwt (split b'~' (split_once b'~' bound).1) ≡ some kb_jwt)
    × SignedByHolder jose kb_jwt claims payload
    × (nonce_of payload ≡ some "nonce-1")
decode_sd_jwt_presentation-nonce_signed_example =
    decode_sd_jwt_presentation-nonce_signed codec jose (λ jwt key alg claims e. e) bound []
      (decoded_as (some "nonce-1")) "nonce-1" decodes_bound accepts_bound refl

is_plain : has_char b'~' "d2" ≡ false
unfolding has_char
is_plain = refl

is_no_kb : is_kb_jwt "d2" ≡ false
unfolding is_kb_jwt
is_no_kb = refl

discloses : decode_disclosure codec "d2" ≡ some ("age", int (pos 18))
unfolding decode_disclosure
discloses = refl

decode_sd_jwt_presentation-forged_example :
    (verify_sd_jwt_signatures jose (with_part bound "d2") []
      ≡ verify_sd_jwt_signatures jose bound [])
    × (decode_sd_jwt_presentation codec (with_part bound "d2")
        ≡ ok (record (decoded_as (some "nonce-1")) {
          claims = insert "age" (int (pos 18)) claims_1;
        }))
decode_sd_jwt_presentation-forged_example =
    decode_sd_jwt_presentation-forged codec jose bound "d2" "age" (int (pos 18)) []
      (decoded_as (some "nonce-1")) decodes_bound is_plain is_no_kb (λ e. cc e) discloses

decode_sd_jwt_presentation-origin_example :
    ((payload : Json) × (payload_of codec (split b'.' (split_once b'~' bound).0) ≡ ok payload)
      × FromPayload "name" (str "Ada") (get_or (as_object payload) end))
    ⊎ FromDisclosure codec "name" (str "Ada") (split b'~' (split_once b'~' bound).1)
decode_sd_jwt_presentation-origin_example =
    decode_sd_jwt_presentation-origin codec bound (decoded_as (some "nonce-1")) "name" (str "Ada")
      decodes_bound (inr (inl (refl, refl)))
