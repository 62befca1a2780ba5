-- ===== src/Mdoc/Cose.antt =====
-- mdoc_verification.rs: COSE signatures, their certificate chains, and the keys of devices.
use ewqwe_identity.Prelude.{
  ℕ, zero, suc, ◌*◌, String, ◌<>◌, Bool, true, false, Option, some, none, or_opt, opt_bind, is_some,
  List, [], ◌∷◌, ◌++◌, if◌then◌else◌, ◌==◌, length,
}
use ewqwe_identity.Prelude.Int.{ℤ, pos, negsuc, eq_ℤ, wrap}
use ewqwe_identity.Prelude.Result.{ok, err, ◌>>=◌, ◌>>◌}
use ewqwe_identity.Cbor.{Cbor, tag, bytes, array, Cells, last, cell, as_bytes, integer_of}
use ewqwe_identity.Credential.{CredentialResult, invalid_presentation, need, because}
use ewqwe_identity.Mdoc.{
  Externals, Bytes, Curve, p256, p384, p521, Digest, sha256, sha384, sha512, Label, int_label,
  text_label, CoseAlg, assigned, private_use, text_alg, CoseSign1, CoseKey,
}

is_label : ℤ → Label → Bool
is_label n (int_label m) = eq_ℤ m n
is_label n (text_label t) = false

-- `find_map` on the entries that have the label and that the reader takes.
find_param : {A : Type 0} → ℤ → (Cbor → Option A) → List (Label × Cbor) → Option A
unfolding is_label
find_param n read [] = none
find_param n read ((l, v) ∷ params) =
    or_opt (if is_label n l then read v else none) (find_param n read params)

-- `i64::try_from`
to_i64 : ℤ → Option ℤ
unfolding wrap
to_i64 z = if eq_ℤ (wrap z) z then some z else none

unfoldable pub cose_key_param_integer : CoseKey → ℤ → Option ℤ
unfolding find_param integer_of to_i64
cose_key_param_integer key label = find_param label (λ v. opt_bind (integer_of v) to_i64) key.params

unfoldable pub cose_key_param_bytes : CoseKey → ℤ → Option Bytes
unfolding find_param as_bytes
cose_key_param_bytes key label = find_param label as_bytes key.params

all_bytes : Cells → CredentialResult (List Bytes)
all_bytes last = ok []
all_bytes (cell (bytes cert) vs) = do certs ← all_bytes vs; ok (cert ∷ certs)
all_bytes (cell v vs) =
    err (invalid_presentation "COSE x5chain array contains a non-byte-string certificate")

certificates : Cbor → CredentialResult (List Bytes)
unfolding all_bytes
certificates (bytes cert) = ok (cert ∷ [])
certificates (array vs) = all_bytes vs
certificates v =
    err (invalid_presentation "COSE x5chain header is neither a byte string nor an array")

-- The first value with label 33, the protected header first.
unfoldable pub extract_x5chain_from_cose : CoseSign1 → CredentialResult (List Bytes)
unfolding find_param certificates
extract_x5chain_from_cose cose = do
  value ←
      need (find_param (pos 33) some (cose.protected.rest ++ cose.unprotected.rest))
        "issuerAuth is missing COSE x5chain header parameter 33"
  certificates value

alg_id : CoseAlg → CredentialResult ℤ
alg_id (assigned z) = ok z
alg_id (private_use z) = ok z
alg_id (text_alg name) = err (invalid_presentation ("textual COSE alg is not supported: " <> name))

unfoldable pub cose_algorithm_id : CoseSign1 → CredentialResult ℤ
unfolding alg_id
cose_algorithm_id cose = do
  alg ← need (or_opt cose.protected.alg cose.unprotected.alg) "COSE structure missing alg header"
  alg_id alg

-- The length of a half of the signature, and the digest.
unfoldable pub ecdsa_alg : ℤ → Option (ℕ × Digest)
ecdsa_alg alg =
    if eq_ℤ alg (negsuc 6)
    then some (32, sha256)
    else (if eq_ℤ alg (negsuc 34)
        then some (48, sha384)
        else (if eq_ℤ alg (negsuc 35) then some (66, sha512) else none))

unfoldable pub rsa_alg : ℤ → Option Digest
rsa_alg alg =
    if eq_ℤ alg (negsuc 256)
    then some sha256
    else (if eq_ℤ alg (negsuc 257)
        then some sha384
        else (if eq_ℤ alg (negsuc 258) then some sha512 else none))

-- `&s[..n]` and `&s[n..]` of a slice that is long enough.
abbrev pub take : ℕ → Bytes → Bytes
take zero s = []
take (suc n) [] = []
take (suc n) (b ∷ s) = b ∷ take n s

abbrev pub drop : ℕ → Bytes → Bytes
drop zero s = s
drop (suc n) [] = []
drop (suc n) (b ∷ s) = drop n s

curve_of : ℤ → Option Curve
curve_of crv =
    if eq_ℤ crv (pos 1)
    then some p256
    else (if eq_ℤ crv (pos 2) then some p384 else (if eq_ℤ crv (pos 3) then some p521 else none))

kty_of : Label → CredentialResult ℤ
kty_of (int_label z) = ok z
kty_of (text_label t) = err (invalid_presentation "unsupported textual COSE key type")

untagged_sign1 : Cbor → Cbor
untagged_sign1 (tag n inner) = if n == 18 then inner else tag n inner
untagged_sign1 v = v

unfoldable pub must : Bool → String → CredentialResult (Unit {0})
must true what = ok tt
must false what = err (invalid_presentation what)

module _ (x : Externals) where
  decimal : ℤ → String
  decimal z = x.writers.decimal z

  unfoldable pub parse_cose_sign1_from_value : Cbor → CredentialResult CoseSign1
  unfolding untagged_sign1
  parse_cose_sign1_from_value value = do
    b ← because "COSE serialization failed" (x.into_writer (untagged_sign1 value))
    because "COSE_Sign1 parse failed" (x.sign1_from_slice b)

  unfoldable pub load_intermediates : List Bytes → CredentialResult (List x.Cert)
  load_intermediates [] = ok []
  load_intermediates (der ∷ ders) = do
    cert ← because "failed to parse issuer intermediate cert" (x.from_der der)
    certs ← load_intermediates ders
    ok (cert ∷ certs)

  unfoldable pub verify_cose_certificate_chain :
      List Bytes → List x.Cert → CredentialResult (x.PublicKey × Bool)
  unfolding load_intermediates
  verify_cose_certificate_chain [] trusted_cas =
      err (invalid_presentation "issuerAuth x5chain does not contain a leaf certificate")
  verify_cose_certificate_chain (first ∷ rest) trusted_cas = do
    leaf ← because "failed to parse issuer leaf cert" (x.from_der first)
    intermediates ← load_intermediates rest
    let trusted = x.verify_cert trusted_cas leaf intermediates
    key ← because "failed to extract issuer public key from certificate" (x.public_key leaf)
    ok (key, trusted)

  unfoldable pub verify_ecdsa_signature :
      ℤ → Bytes → Bytes → x.PublicKey → CredentialResult (Unit {0})
  unfolding ecdsa_alg decimal must
  verify_ecdsa_signature alg signed signature key = do
    params ← need (ecdsa_alg alg) ("unsupported ECDSA COSE algorithm: " <> decimal alg)
    must (length signature == params.0 * 2) (
        "invalid ECDSA signature length for alg "
        <> decimal alg
        <> ": "
        <> x.decimal_u64 (length signature))
    der ←
        because "failed to convert ECDSA signature"
          (x.signature_to_der (take params.0 signature) (drop params.0 signature))
    valid ← because "ECDSA verification failed" (x.verify_ecdsa params.1 key signed der)
    must valid "COSE ECDSA signature verification failed"

  unfoldable pub verify_rsa_signature :
      ℤ → Bytes → Bytes → x.PublicKey → CredentialResult (Unit {0})
  unfolding rsa_alg decimal must
  verify_rsa_signature alg signed signature key = do
    digest ← need (rsa_alg alg) ("unsupported RSA COSE algorithm: " <> decimal alg)
    valid ← because "RSA verification failed" (x.verify_rsa_pkcs1 digest key signed signature)
    must valid "COSE RSA signature verification failed"

  -- The match on the algorithm that both kinds of verification make.
  unfoldable pub verify_by_alg :
      String → ℤ → Bytes → Bytes → x.PublicKey → CredentialResult (Unit {0})
  unfolding verify_ecdsa_signature verify_rsa_signature decimal ecdsa_alg rsa_alg
  verify_by_alg unsupported alg signed signature key =
      if is_some (ecdsa_alg alg)
      then verify_ecdsa_signature alg signed signature key
      else (if is_some (rsa_alg alg)
          then verify_rsa_signature alg signed signature key
          else err (invalid_presentation (unsupported <> decimal alg)))

  unfoldable pub verify_cose_sign1_embedded : CoseSign1 → x.PublicKey → CredentialResult (Unit {0})
  unfolding cose_algorithm_id verify_by_alg
  verify_cose_sign1_embedded cose key = do
    alg ← cose_algorithm_id cose
    verify_by_alg "unsupported COSE signature algorithm: " alg (x.tbs_data cose) cose.signature key

  unfoldable pub verify_cose_sign1_detached :
      CoseSign1 → x.PublicKey → Bytes → CredentialResult (Unit {0})
  unfolding cose_algorithm_id verify_by_alg
  verify_cose_sign1_detached cose key payload = do
    alg ← cose_algorithm_id cose
    verify_by_alg "unsupported COSE detached signature algorithm: " alg
        (x.tbs_detached_data cose payload) cose.signature key

  unfoldable pub cose_key_to_public_key : CoseKey → CredentialResult x.PublicKey
  unfolding kty_of must cose_key_param_integer cose_key_param_bytes curve_of decimal
  cose_key_to_public_key key = do
    kty ← kty_of key.kty
    must (eq_ℤ kty (pos 2)) "only EC2 COSE device keys are currently supported"
    crv ← need (cose_key_param_integer key (negsuc 0)) "COSE device key missing crv"
    x_bytes ← need (cose_key_param_bytes key (negsuc 1)) "COSE device key missing x"
    y_bytes ← need (cose_key_param_bytes key (negsuc 2)) "COSE device key missing y"
    curve ← need (curve_of crv) ("unsupported COSE EC curve: " <> decimal crv)
    because "failed to reconstruct EC public key" (x.ec_public_key curve x_bytes y_bytes)
