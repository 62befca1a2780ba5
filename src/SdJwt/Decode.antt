-- ===== src/SdJwt/Decode.antt =====
-- `decode_sd_jwt_presentation`: the claims and the nonce, without any cryptography.
use ewqwe_identity.Prelude.{
  ℕ, String, ◌<>◌, not, Option, some, none, opt_map, opt_bind, get_or, List, [], ◌∷◌, contains,
  if◌then◌else◌,
}
use ewqwe_identity.Prelude.Int.{ℤ}
use ewqwe_identity.Prelude.Text.{has_char, split, split_once}
use ewqwe_identity.Prelude.Result.{Result, ok, err, ◌>>=◌, map_err}
use ewqwe_identity.Json.{Json, Fields, end, field, as_str, as_i64, as_object, items, arr}
use ewqwe_identity.Json.Map.{get, insert}
use ewqwe_identity.Credential.{CredentialError, invalid_presentation}
use ewqwe_identity.SdJwt.{DecodedSdJwt, is_kb_jwt}

-- The two base64 alphabets' readers, serde_json's reader, and chrono's `from_timestamp` with
-- `to_rfc3339`. Bytes are numbers.
pub record Codec : Type 0 where
  pub url_safe_no_pad : String → Result String (List ℕ)
  pub url_safe : String → Result String (List ℕ)
  pub from_slice : List ℕ → Result String Json
  pub from_timestamp : ℤ → Option String

abbrev pub skip_claims : List String
skip_claims =
    "iss" ∷ "sub" ∷ "aud" ∷ "iat" ∷ "exp" ∷ "nbf" ∷ "jti" ∷ "vct" ∷ "_sd" ∷ "_sd_alg" ∷ "cnf"
    ∷ "status" ∷ []

-- The first loop over the payload.
unfoldable pub confirmed : Fields → Fields → Fields
unfolding insert
confirmed end claims = claims
confirmed (field k v fs) claims =
    confirmed fs (if contains skip_claims k then claims else insert k v claims)

unfoldable pub or_else : {A : Type 0} → Result String A → Result String A → Result String A
or_else (ok a) other = ok a
or_else (err e) other = other

-- `split('.')` at index 1, which two dots make safe
unfoldable pub second : List String → String
second (a ∷ b ∷ parts) = b
second _ = ""

-- The name and the value of an array of three whose second item is a text.
disclosed : List Json → Option (String × Json)
disclosed (salt ∷ name ∷ value ∷ []) = opt_map (λ n. (n, value)) (as_str name)
disclosed _ = none

as_disclosure : Json → Option (String × Json)
unfolding disclosed items
as_disclosure (arr xs) = disclosed (items xs)
as_disclosure _ = none

-- What one disclosure does to the claims.
unfoldable pub add_claim : Option (String × Json) → Fields → Fields
unfolding insert
add_claim none claims = claims
add_claim (some (k, v)) claims = insert k v claims

abbrev pub Found : Type 0
Found = Fields × Option String

unfoldable pub nonce_of : Json → Option String
unfolding get
nonce_of payload = opt_bind (get payload "nonce") as_str

module _ (x : Codec) where
  unfoldable pub decode_base64 : String → Result String (List ℕ)
  unfolding or_else
  decode_base64 part = or_else (x.url_safe_no_pad part) (x.url_safe part)

  -- A part as JSON.
  unfoldable pub decode_json : String → Result String Json
  unfolding decode_base64
  decode_json part = do bytes ← decode_base64 part; x.from_slice bytes

  -- The nonce after a KB-JWT; one that cannot be read leaves it as it was.
  unfoldable pub kb_nonce : String → Option String → Option String
  unfolding decode_json second split nonce_of
  kb_nonce part nonce = elim (decode_json (second (split b'.' part))) [
    | ok payload ↦ nonce_of payload
    | err e ↦ nonce
  ]

  -- The claim that a disclosure names.
  unfoldable pub decode_disclosure : String → Option (String × Json)
  unfolding decode_json as_disclosure
  decode_disclosure part = elim (decode_json part) [ ok v ↦ as_disclosure v | err e ↦ none ]

  -- One round of the loop over the parts.
  unfoldable pub read_part : String → Found → Found
  unfolding is_kb_jwt kb_nonce decode_disclosure add_claim
  read_part String.[] found = found
  read_part part (claims, nonce) =
      if is_kb_jwt part
      then (claims, kb_nonce part nonce)
      else (add_claim (decode_disclosure part) claims, nonce)

  unfoldable pub read_parts : List String → Found → Found
  unfolding read_part
  read_parts [] found = found
  read_parts (part ∷ parts) found = read_parts parts (read_part part found)

  unfoldable pub payload_of : List String → Result CredentialError Json
  unfolding decode_base64
  payload_of (header ∷ payload ∷ signature ∷ []) = do
    bytes ←
        map_err (λ e. invalid_presentation ("base64 decode of JWT payload failed: " <> e))
          (decode_base64 payload)
    map_err (λ e. invalid_presentation ("JSON parse of JWT payload: " <> e)) (x.from_slice bytes)
  payload_of _ = err (invalid_presentation "malformed JWT: expected 3 dot-separated parts")

  unfoldable pub timestamp : Json → String → Option String
  unfolding get
  timestamp payload k = opt_bind (opt_bind (get payload k) as_i64) x.from_timestamp

  unfoldable pub decode_sd_jwt_presentation : String → Result CredentialError DecodedSdJwt
  unfolding has_char split split_once payload_of get timestamp confirmed read_parts
  decode_sd_jwt_presentation raw =
      if not (has_char b'~' raw)
      then err (invalid_presentation "not an SD-JWT: no '~' separator found")
      else (do
        let (issuer_jwt, rest) = split_once b'~' raw
        payload ← payload_of (split b'.' issuer_jwt)
        let claims = confirmed (get_or (as_object payload) end) end
        let found = read_parts (split b'~' rest) (claims, none)
        ok (record {
          vct = get_or (opt_bind (get payload "vct") as_str) "unknown";
          claims = found.0;
          issuer = get_or (opt_bind (get payload "iss") as_str) "sd-jwt-issuer";
          issued_at = timestamp payload "iat";
          expires_at = timestamp payload "exp";
          nonce = found.1;
        }))
