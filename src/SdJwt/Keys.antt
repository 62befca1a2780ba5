-- ===== src/SdJwt/Keys.antt =====
-- The keys that check the two signatures: `extract_key_from_x5c` and `build_decoding_key_from_jwk`.
use ewqwe_identity.Prelude.{
  ℕ, String, ◌<>◌, Bool, Option, some, none, opt_bind, get_or, List, [], ◌∷◌, str_eq, if◌then◌else◌,
}
use ewqwe_identity.Prelude.Result.{Result, ok, err, ◌>>=◌, map_err, ok_or}
use ewqwe_identity.Json.{Json, as_str}
use ewqwe_identity.Json.Map.{get}

-- `jsonwebtoken::Algorithm`
pub data Algorithm : Type 0 where
  hs256 hs384 hs512 es256 es384 rs256 rs384 rs512 ps256 ps384 ps512 ed_dsa : Algorithm

pub data Curve : Type 0 where
  p256 p384 p521 : Curve

-- `jsonwebtoken::Header`, as far as it is read.
pub record Header : Type 0 where
  pub alg : Algorithm
  pub x5c : Option (List String)

-- openssl's certificates and keys, base64's readers, and jsonwebtoken's keys, `decode_header`, and
-- `decode` without the checks of expiry and audience. `verify_cert` is whether the context of a store
-- with these trusted certificates and partial chains, a leaf and intermediates answers `Ok(true)`.
-- `debug` prints an algorithm. openssl's constructors of empty objects, numbers and named groups, and the adding of a certificate, are
-- taken to succeed.
pub record Jose : Type 1 where
  pub Cert : Type 0
  pub PublicKey : Type 0
  pub EcKey : Type 0
  pub RsaKey : Type 0
  pub DecodingKey : Type 0
  pub standard : String → Result String (List ℕ)
  pub url_safe_no_pad : String → Result String (List ℕ)
  pub from_der : List ℕ → Result String Cert
  pub verify_cert : List Cert → Cert → List Cert → Bool
  pub public_key : Cert → Result String PublicKey
  pub ec_key : PublicKey → Result String EcKey
  pub rsa : PublicKey → Result String RsaKey
  pub from_affine_coordinates : Curve → List ℕ → List ℕ → Result String EcKey
  pub ec_to_pem : EcKey → Result String (List ℕ)
  pub rsa_to_pem : RsaKey → Result String (List ℕ)
  pub from_ec_pem : List ℕ → Result String DecodingKey
  pub from_rsa_pem : List ℕ → Result String DecodingKey
  pub from_rsa_components : String → String → Result String DecodingKey
  pub from_ed_der : List ℕ → DecodingKey
  pub decode_header : String → Result String Header
  pub decode : String → DecodingKey → Algorithm → Result String Json
  pub debug : Algorithm → String

-- `format!("{context}: {e}")`
context : {A : Type 0} → String → Result String A → Result String A
context what r = map_err (λ e. what <> ": " <> e) r

-- The two classes of `match alg`, and `None` for its last arm.
pub data Family : Type 0 where
  elliptic rivest : Family

family : Algorithm → Option Family
family es256 = some elliptic
family es384 = some elliptic
family rs256 = some rivest
family rs384 = some rivest
family rs512 = some rivest
family _ = none

curve_of : String → Option Curve
curve_of crv =
    if str_eq crv "P-256"
    then some p256
    else (if str_eq crv "P-384"
        then some p384
        else (if str_eq crv "P-521" then some p521 else none))

text_at : Json → String → Option String
unfolding get
text_at v k = opt_bind (get v k) as_str

module _ (x : Jose) where
  unfoldable pub load_cert : String → String → Result String x.Cert
  unfolding context
  load_cert what text = do
    der ← context ("base64 decode of " <> what <> " failed") (x.standard text)
    context ("DER parse of " <> what <> " failed") (x.from_der der)

  unfoldable pub load_intermediates : List String → Result String (List x.Cert)
  unfolding load_cert
  load_intermediates [] = ok []
  load_intermediates (text ∷ texts) = do
    cert ← load_cert "x5c intermediate" text
    rest ← load_intermediates texts
    ok (cert ∷ rest)

  key_of_leaf : Algorithm → Option Family → x.PublicKey → Result String x.DecodingKey
  unfolding context
  key_of_leaf alg (some elliptic) pkey = do
    ec ← context ("expected EC key for " <> x.debug alg) (x.ec_key pkey)
    pem ← context "EC public_key_to_pem failed" (x.ec_to_pem ec)
    context "DecodingKey::from_ec_pem failed" (x.from_ec_pem pem)
  key_of_leaf alg (some rivest) pkey = do
    rsa ← context ("expected RSA key for " <> x.debug alg) (x.rsa pkey)
    pem ← context "RSA public_key_to_pem failed" (x.rsa_to_pem rsa)
    context "DecodingKey::from_rsa_pem failed" (x.from_rsa_pem pem)
  key_of_leaf alg none pkey = err ("unsupported JWT algorithm: " <> x.debug alg)

  -- The key of a certificate, for an algorithm.
  unfoldable pub leaf_key : x.Cert → Algorithm → Result String x.DecodingKey
  unfolding key_of_leaf family context
  leaf_key leaf alg = do
    pkey ← context "public_key extraction failed" (x.public_key leaf)
    key_of_leaf alg (family alg) pkey

  -- The caller has checked that the list has a first item.
  unfoldable pub extract_key_from_x5c :
      String → List String → List x.Cert → Algorithm → Result String (x.DecodingKey × Bool)
  unfolding load_cert load_intermediates leaf_key
  extract_key_from_x5c first rest trusted_cas alg = do
    leaf ← load_cert "x5c[0]" first
    intermediates ← load_intermediates rest
    let issuer_trusted = x.verify_cert trusted_cas leaf intermediates
    key ← leaf_key leaf alg
    ok (key, issuer_trusted)

  ec_key_from_jwk : Json → Result String x.DecodingKey
  unfolding context text_at curve_of
  ec_key_from_jwk jwk = do
    let crv = get_or (text_at jwk "crv") "P-256"
    x_text ← ok_or (text_at jwk "x") "EC JWK missing x"
    y_text ← ok_or (text_at jwk "y") "EC JWK missing y"
    x_bytes ← context "base64 decode x" (x.url_safe_no_pad x_text)
    y_bytes ← context "base64 decode y" (x.url_safe_no_pad y_text)
    curve ← ok_or (curve_of crv) ("unsupported EC curve: " <> crv)
    ec ← context "EcKey from affine" (x.from_affine_coordinates curve x_bytes y_bytes)
    pem ← context "EC pem" (x.ec_to_pem ec)
    context "DecodingKey::from_ec_pem" (x.from_ec_pem pem)

  rsa_key_from_jwk : Json → Result String x.DecodingKey
  unfolding context text_at
  rsa_key_from_jwk jwk = do
    n ← ok_or (text_at jwk "n") "RSA JWK missing n"
    e ← ok_or (text_at jwk "e") "RSA JWK missing e"
    context "DecodingKey::from_rsa_components" (x.from_rsa_components n e)

  ed_key : Algorithm → List ℕ → Result String x.DecodingKey
  ed_key ed_dsa bytes = ok (x.from_ed_der bytes)
  ed_key alg bytes = err ("OKP kty with non-EdDSA alg: " <> x.debug alg)

  okp_key_from_jwk : Json → Algorithm → Result String x.DecodingKey
  unfolding context text_at ed_key
  okp_key_from_jwk jwk alg = do
    x_text ← ok_or (text_at jwk "x") "OKP JWK missing x"
    bytes ← context "base64 decode x" (x.url_safe_no_pad x_text)
    ed_key alg bytes

  key_of_kty : String → Json → Algorithm → Result String x.DecodingKey
  unfolding ec_key_from_jwk rsa_key_from_jwk okp_key_from_jwk
  key_of_kty kty jwk alg =
      if str_eq kty "EC"
      then ec_key_from_jwk jwk
      else (if str_eq kty "RSA"
          then rsa_key_from_jwk jwk
          else (if str_eq kty "OKP"
              then okp_key_from_jwk jwk alg
              else err ("unsupported JWK kty: " <> kty)))

  unfoldable pub build_decoding_key_from_jwk : Json → Algorithm → Result String x.DecodingKey
  unfolding text_at key_of_kty
  build_decoding_key_from_jwk jwk alg = do
    kty ← ok_or (text_at jwk "kty") "JWK missing kty"
    key_of_kty kty jwk alg
