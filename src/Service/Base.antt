-- ===== src/Service/Base.antt =====
-- The service's own data, and what it takes from other crates.
use ewqwe_identity.Prelude.{ℕ, String, Bool, Option, List}
use ewqwe_identity.Prelude.Int.{ℤ}
use ewqwe_identity.Prelude.Result.{Result}
use ewqwe_identity.Types.{OpenId4vpResult, DcqlQuery, VpFormats}
use ewqwe_identity.Json.{Json, obj}
use ewqwe_identity.Json.Map.{insert}
unfoldable pub use ewqwe_identity.Json.Map.{insert_all, object}

-- `JarKeyMaterial` and `JweKeyMaterial` of crypto.rs, as far as the service reads them.
pub record JarKey : Type 0 where
  pub cert_hash : String
  pub san_dns_name : String

pub record JweKey : Type 0 where
  pub public_jwk : Json

pub record OpenId4vpService : Type 0 where
  pub jar_key : Option JarKey
  pub jwe_key : Option JweKey
  pub ttl_secs : ℤ

pub record JarPayload : Type 0 where
  pub client_id : String
  pub client_id_scheme : String
  pub response_mode : String
  pub response_uri : String
  pub state : String
  pub nonce : String
  pub dcql_query : Json
  pub client_metadata : Json
  pub expires_at_secs : ℤ
  pub transaction_data : Option (List String)

pub record DecryptedWalletResponse : Type 0 where
  pub vp_token : String
  pub presentation_submission : Option String
  pub state : String

-- Unicode's letters and digits (`char::is_alphanumeric`), `{:?}` on a text, serde_json's writers, the percent and
-- form encodings, the QR code, and the signing and decryption that crypto.rs does with openssl.
pub record Externals : Type 0 where
  pub is_alphanumeric : ℕ → Bool
  pub quoted : String → String
  pub query_to_json : DcqlQuery → Json
  pub formats_to_json : VpFormats → Json
  pub json_to_string : Json → Result String String
  pub url_encode : String → String
  pub form_encode : List (String × String) → String
  pub qr_code : String → Option String
  pub sign_jar : JarPayload → JarKey → OpenId4vpResult String
  pub decrypt_jwe_response : String → JweKey → OpenId4vpResult DecryptedWalletResponse

-- `value[key] = v` on an object
unfoldable pub assign : String → Json → Json → Json
unfolding insert
assign k v (obj m) = obj (insert k v m)
assign k v other = other
