-- ===== src/Vp/Parse/Law.antt =====
-- What the verification of a token decides about an SD-JWT presentation.
use mathlib.Core.Path.{subst}
use ewqwe_identity.Prelude.{
  String, ◌≡◌, inl, inr, refl, sym, ap, ◌∙◌, Bool, true, false≢true, Option, some, none, List, ◌∷◌,
  opt_map, if◌then◌else◌,
}
use ewqwe_identity.Prelude.Int.{ℤ}
use ewqwe_identity.Prelude.Text.{split, split_once}
use ewqwe_identity.Prelude.Result.{ok, >>=-passed, ok-injective}
use ewqwe_identity.Json.{Json, str, obj}
use ewqwe_identity.Store.Spec.{Tx}
use ewqwe_identity.SdJwt.{DecodedSdJwt}
use ewqwe_identity.SdJwt.Decode.{decode_sd_jwt_presentation}
use ewqwe_identity.SdJwt.Verify.{last_kb_jwt, verify_sd_jwt_signatures}
use ewqwe_identity.SdJwt.Verify.Law.{
  IssuedBy, HolderBound, AllValid, verify_sd_jwt_signatures-AllValid_iff,
}
use ewqwe_identity.SdJwt.Verify.Early.{verify_sd_jwt_signatures-not_skipped}
use ewqwe_identity.SdJwt.Nonce.{decode-no_kb_jwt}
use ewqwe_identity.SdJwt.Forged.{decode-has_separator}
use ewqwe_identity.Mdoc.{Bytes}
use ewqwe_identity.Vp.{
  Verified, Checks, judge, judge_other, check_client, extract_claims, verify_vp_token_against_cas,
}
use ewqwe_identity.Vp.Law.{
  IsSigned, NotExpired, NonceAgrees, verify_vp_token-valid_iff, no_nonce, any_client,
}
use ewqwe_identity.Vp.Parse.{
  Readers, sd_jwt_token, from_sd_jwt, from_mdoc, from_presentation, from_dcql, parse_vp_token,
  checks,
}

module _ (x : Readers) (text id raw : String) (ps : List Json) (rest : List (String × List Json))
    -- The token is an object of presentations, the first of which is the text.
    (wrapped : x.dcql_token text ≡ some ((id, str raw ∷ ps) ∷ rest)) where
  from_sd_jwt-decoded :
      (d : DecodedSdJwt)
      → decode_sd_jwt_presentation x.codec raw ≡ ok d
      → from_sd_jwt x id raw ≡ ok (sd_jwt_token raw d, some id)
  unfolding from_sd_jwt
  from_sd_jwt-decoded d decodes = rw (decodes, from_sd_jwt) refl

  parse-sd_jwt :
      (d : DecodedSdJwt)
      → decode_sd_jwt_presentation x.codec raw ≡ ok d
      → parse_vp_token x text ≡ ok (sd_jwt_token raw d, some id)
  unfolding parse_vp_token from_dcql from_presentation
  parse-sd_jwt d decodes =
      rw (wrapped, parse_vp_token)
        (subst
          (λ (b : Bool).
            (if b then from_sd_jwt x id raw else from_mdoc x id raw)
            ≡ ok (sd_jwt_token raw d, some id))
          (sym (decode-has_separator x.codec raw d decodes)) (from_sd_jwt-decoded d decodes))

  module _ (sd_jwt_cas : List x.jose.Cert) (mdoc_cas : List x.mdoc.Cert) (thumbprint : Option Bytes)
      (parse_rfc3339 : String → Option ℤ) (now : ℤ) where
    abbrev the_checks : Checks
    the_checks = checks x sd_jwt_cas mdoc_cas thumbprint parse_rfc3339 now

    judged :
        (transaction : Option Tx) (d : DecodedSdJwt)
        → decode_sd_jwt_presentation x.codec raw ≡ ok d
        → check_client transaction none ≡ ok tt
        → verify_vp_token_against_cas the_checks text transaction none
          ≡ ok (
              judge_other the_checks transaction
                (sd_jwt_token raw d)
                (some id)
                (verify_sd_jwt_signatures x.jose raw sd_jwt_cas))
    unfolding verify_vp_token_against_cas judge checks sd_jwt_token
    judged transaction d decodes client = rw (client, parse-sd_jwt d decodes) refl

    flags :
        (issuer : Option String)
        → IsSigned (verify_sd_jwt_signatures x.jose raw sd_jwt_cas) issuer
        → AllValid (verify_sd_jwt_signatures x.jose raw sd_jwt_cas)
    flags issuer (inl (skipped, named)) =
        absurd
          (false≢true (sym (verify_sd_jwt_signatures-not_skipped x.jose raw sd_jwt_cas) ∙ skipped))
    flags issuer (inr (checked, a, b, c)) = (a, b, c)

    -- An accepted SD-JWT presentation was issued by a trusted issuer, in a payload whose holder key
    -- verifies the last KB-JWT, if there is one; a nonce in it is that of the transaction; and the
    -- claims of the answer are the decoded ones. The call is made with the transaction.
    pub verify_vp_token_against_cas-sd_jwt :
        (tx : Tx) (client : Option String) (d : DecodedSdJwt) (v : Verified)
        → decode_sd_jwt_presentation x.codec raw ≡ ok d
        → verify_vp_token_against_cas the_checks text (some tx) client ≡ ok v
        → v.result.is_valid ≡ true
        → (claims : Json) × IssuedBy x.jose sd_jwt_cas (split_once b'~' raw).0 claims
          × HolderBound x.jose (split_once b'~' raw).1 claims
          × NonceAgrees (some tx.nonce) d.nonce
          × NotExpired parse_rfc3339 now d.expires_at
          × (v.claims ≡ obj d.claims)
    unfolding verify_vp_token_against_cas judge checks sd_jwt_token extract_claims
    verify_vp_token_against_cas-sd_jwt tx client d v decodes accepted valid =
        let (u, e1, h1) = >>=-passed (check_client (some tx) client) _ accepted in
        let result = ok-injective (rw (parse-sd_jwt d decodes) at h1) in
        let (signed, fresh, agrees) =
          (verify_vp_token-valid_iff parse_rfc3339 now (sd_jwt_token raw d) (some tx.nonce)
              (verify_sd_jwt_signatures x.jose raw sd_jwt_cas)).0
            (ap (λ (w : Verified). w.result.is_valid) result ∙ valid) in
        let (claims, issued, bound) =
          (verify_sd_jwt_signatures-AllValid_iff x.jose raw sd_jwt_cas).0
            (flags (some d.issuer) signed) in
        (claims, issued, bound, agrees, fresh, ap (λ (w : Verified). w.claims) (sym result))

    -- An SD-JWT presentation without any KB-JWT, whose issuer is trusted and which has not expired, is
    -- valid in every transaction, whatever nonce that has.
    pub verify_vp_token_against_cas-replay :
        (transaction : Option Tx) (d : DecodedSdJwt) (claims : Json)
        → decode_sd_jwt_presentation x.codec raw ≡ ok d
        → last_kb_jwt (split b'~' (split_once b'~' raw).1) ≡ none
        → IssuedBy x.jose sd_jwt_cas (split_once b'~' raw).0 claims
        → NotExpired parse_rfc3339 now d.expires_at
        → (v : Verified) × (verify_vp_token_against_cas the_checks text transaction none ≡ ok v)
          × (v.result.is_valid ≡ true)
          × (v.claims ≡ obj d.claims)
    unfolding judge_other checks sd_jwt_token extract_claims
    verify_vp_token_against_cas-replay transaction d claims decodes no_kb issued fresh =
        let sig = verify_sd_jwt_signatures x.jose raw sd_jwt_cas in
        let (a, b, c) =
          (verify_sd_jwt_signatures-AllValid_iff x.jose raw sd_jwt_cas).1
            (claims, issued, inl no_kb) in
        let server = opt_map (λ (tx : Tx). tx.nonce) transaction in
        (
          judge_other the_checks transaction (sd_jwt_token raw d) (some id) sig,
          judged transaction d decodes (any_client transaction),
          (verify_vp_token-valid_iff parse_rfc3339 now (sd_jwt_token raw d) server sig).1 (
            inr (verify_sd_jwt_signatures-not_skipped x.jose raw sd_jwt_cas, a, b, c),
            fresh,
            rw (decode-no_kb_jwt x.codec raw d decodes no_kb) (no_nonce server),
          ),
          refl,
        )
