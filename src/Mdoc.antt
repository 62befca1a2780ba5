-- ===== src/Mdoc.antt =====
-- crates/ewqwe-digital-credential/src/mdoc_decoder.rs and mdoc_verification.rs: mdoc presentations.
pub mod Decode
pub mod Cose
pub mod Mso
pub mod Device
pub mod Verify
pub mod Tests
use ewqwe_identity.Prelude.{ℕ, String, Option, Bool, List}
use ewqwe_identity.Prelude.Int.{ℤ}
use ewqwe_identity.Prelude.Result.{Result}
use ewqwe_identity.Cbor.{Cbor, Writers}

abbrev pub Bytes : Type 0
Bytes = List ℕ

-- The curves and digests of openssl that the code names.
pub data Curve : Type 0 where
  p256 p384 p521 : Curve

pub data Digest : Type 0 where
  sha256 sha384 sha512 : Digest

-- coset's labels, algorithms, headers, `COSE_Sign1` and `COSE_Key`, as far as they are read.
pub data Label : Type 0 where
  int_label : ℤ → Label
  text_label : String → Label

pub data CoseAlg : Type 0 where
  assigned private_use : ℤ → CoseAlg
  text_alg : String → CoseAlg

pub record CoseHeader : Type 0 where
  pub alg : Option CoseAlg
  pub rest : List (Label × Cbor)

pub record CoseSign1 : Type 0 where
  pub protected_data : Bytes
  pub protected : CoseHeader
  pub unprotected : CoseHeader
  pub payload : Option Bytes
  pub signature : Bytes

pub record CoseKey : Type 0 where
  pub kty : Label
  pub params : List (Label × Cbor)

-- base64's and ciborium's readers and writers, coset's readers and the data that it has signed,
-- openssl, and chrono's reader, as an instant. `verify_cert` is whether the context of a store with
-- these trusted certificates and partial chains, a leaf and intermediates answers `Ok(true)`;
-- `signature_to_der` joins the two halves of an ECDSA signature. openssl's constructors of empty
-- objects, numbers and named groups, and the adding of a certificate, are taken to succeed.
pub record Externals : Type 1 where
  pub Cert : Type 0
  pub PublicKey : Type 0
  pub writers : Writers
  pub url_safe_no_pad : String → Result String Bytes
  pub url_safe : String → Result String Bytes
  pub standard : String → Result String Bytes
  pub from_reader : Bytes → Result String Cbor
  pub into_writer : Cbor → Result String Bytes
  pub sign1_from_slice : Bytes → Result String CoseSign1
  pub key_from_slice : Bytes → Result String CoseKey
  pub tbs_data : CoseSign1 → Bytes
  pub tbs_detached_data : CoseSign1 → Bytes → Bytes
  pub from_der : Bytes → Result String Cert
  pub verify_cert : List Cert → Cert → List Cert → Bool
  pub public_key : Cert → Result String PublicKey
  pub signature_to_der : Bytes → Bytes → Result String Bytes
  pub verify_ecdsa : Digest → PublicKey → Bytes → Bytes → Result String Bool
  pub verify_rsa_pkcs1 : Digest → PublicKey → Bytes → Bytes → Result String Bool
  pub ec_public_key : Curve → Bytes → Bytes → Result String PublicKey
  pub hash : Digest → Bytes → Result String Bytes
  pub sha256_of : Bytes → Bytes
  pub to_ascii_lowercase : String → String
  pub decimal_u64 : ℕ → String
  pub parse_rfc3339 : String → Result String ℤ
