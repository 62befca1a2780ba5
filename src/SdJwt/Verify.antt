-- ===== src/SdJwt/Verify.antt =====
-- `verify_sd_jwt_signatures` and `verify_kb_jwt`, and whose signatures an accepted presentation has.
pub mod Early
pub mod Law
use ewqwe_identity.Prelude.{
  String, ◌<>◌, Bool, true, false, Option, some, none, opt_bind, List, [], ◌∷◌, ◌++◌, or_opt,
  if◌then◌else◌,
}
use ewqwe_identity.Prelude.Text.{split, split_once}
use ewqwe_identity.Prelude.Result.{Result, ok, err, ◌>>=◌, map_err, ok_or}
use ewqwe_identity.Json.{Json}
use ewqwe_identity.Json.Map.{get}
use ewqwe_identity.SdJwt.{SigVerificationResult, is_kb_jwt}
use ewqwe_identity.SdJwt.Keys.{Jose, Header, extract_key_from_x5c, build_decoding_key_from_jwk}

-- The parts of the presentation behind the issuer's JWT: `filter` of the empty ones, and `rfind`.
unfoldable pub last_kb_jwt : List String → Option String
unfolding is_kb_jwt
last_kb_jwt [] = none
last_kb_jwt (part ∷ parts) = or_opt (last_kb_jwt parts) (if is_kb_jwt part then some part else none)

unfoldable pub rejected : Bool → String → SigVerificationResult
rejected trusted e = record {
  issuer_sig_valid = false;
  issuer_trusted = trusted;
  kb_sig_valid = false;
  errors = e ∷ [];
  skipped = false;
}

-- The value that either side of the result holds.
unfoldable pub merge : {A : Type 0} → Result A A → A
merge (ok a) = a
merge (err a) = a

-- A failure adds its message to the errors.
unfoldable pub pushed : Result String (Unit {0}) → List String → Bool × List String
pushed (ok u) errors = (true, errors)
pushed (err e) errors = (false, errors ++ (e ∷ []))

unfoldable pub cnf_jwk : Json → Option Json
unfolding get
cnf_jwk claims = opt_bind (get claims "cnf") (λ v. get v "jwk")

module _ (x : Jose) where
  -- The KB-JWT under the key that the issuer's claims name.
  unfoldable pub check_kb_jwt : String → Json → Result String (Unit {0})
  unfolding cnf_jwk build_decoding_key_from_jwk
  check_kb_jwt kb_jwt claims = do
    header ← map_err (λ e. "KB-JWT header decode failed: " <> e) (x.decode_header kb_jwt)
    jwk ← ok_or (cnf_jwk claims) "issuer payload has no cnf.jwk — cannot verify KB-JWT"
    key ←
        map_err (λ e. "cnf.jwk key extraction failed: " <> e)
          (build_decoding_key_from_jwk x jwk header.alg)
    claimed ← map_err (λ e. "KB-JWT signature invalid: " <> e) (x.decode kb_jwt key header.alg)
    ok tt

  unfoldable pub verify_kb_jwt : String → Json → List String → Bool × List String
  unfolding last_kb_jwt split check_kb_jwt pushed
  verify_kb_jwt rest claims errors = elim (last_kb_jwt (split b'~' rest)) [
    | none ↦ (true, errors)
    | some kb_jwt ↦ pushed (check_kb_jwt kb_jwt claims) errors
  ]

  -- The key of the header, and whether the issuer is trusted.
  unfoldable pub issuer_key :
      Header → List x.Cert → Result SigVerificationResult (x.DecodingKey × Bool)
  unfolding rejected extract_key_from_x5c
  issuer_key header trusted_cas = elim header.x5c [
    | some (first ∷ rest) ↦
        map_err (λ e. rejected false ("x5c key extraction failed: " <> e))
          (extract_key_from_x5c x first rest trusted_cas header.alg)
    | _ ↦
        err (rejected false "issuer JWT is missing the required x5c header; presentation rejected")
  ]

  -- The results of the early returns are errors.
  unfoldable pub check_signatures :
      String → List x.Cert → Result SigVerificationResult SigVerificationResult
  unfolding rejected issuer_key split_once verify_kb_jwt
  check_signatures raw trusted_cas = do
    let (issuer_jwt, rest) = split_once b'~' raw
    header ←
        map_err (λ e. rejected false ("failed to decode issuer JWT header: " <> e))
          (x.decode_header issuer_jwt)
    found ← issuer_key header trusted_cas
    claims ←
        map_err (λ e. rejected found.1 ("issuer JWT signature invalid: " <> e))
          (x.decode issuer_jwt found.0 header.alg)
    let kb = verify_kb_jwt rest claims []
    ok (record {
      issuer_sig_valid = true;
      issuer_trusted = found.1;
      kb_sig_valid = kb.0;
      errors = kb.1;
      skipped = false;
    })

  unfoldable pub verify_sd_jwt_signatures : String → List x.Cert → SigVerificationResult
  unfolding merge check_signatures
  verify_sd_jwt_signatures raw trusted_cas = merge (check_signatures raw trusted_cas)
