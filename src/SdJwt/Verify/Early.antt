-- ===== src/SdJwt/Verify/Early.antt =====
-- The early returns of `verify_sd_jwt_signatures`.
use ewqwe_identity.Prelude.{
  String, ◌<>◌, ◌≡◌, refl, ap, sym, ◌∙◌, Bool, true, false, false≢true, Option, some, none, List,
  [], ◌∷◌,
}
use ewqwe_identity.Prelude.Text.{split_once}
use ewqwe_identity.Prelude.Result.{Result, ok, err, ◌>>=◌, map_err, >>=-passed, ok-injective}
use ewqwe_identity.SdJwt.{SigVerificationResult}
use ewqwe_identity.SdJwt.Keys.{Jose, Header, extract_key_from_x5c}
use ewqwe_identity.SdJwt.Verify.{
  rejected, merge, issuer_key, check_signatures, verify_sd_jwt_signatures,
}

-- Early returns answer that the issuer's signature is not valid, and not that it was skipped.
abbrev pub Rejects : {A : Type 0} → Result SigVerificationResult A → Type 0
Rejects (ok a) = Unit
Rejects (err v) = (v.issuer_sig_valid ≡ false) × (v.skipped ≡ false)

>>=-Rejects :
    {A B : Type 0} (m : Result SigVerificationResult A) (f : A → Result SigVerificationResult B)
    → Rejects m
    → ((a : A) → Rejects (f a))
    → Rejects (m >>= f)
>>=-Rejects (ok a) f r h = h a
>>=-Rejects (err v) f r h = r

map_err-Rejects :
    {A : Type 0} (trusted : Bool) (what : String) (r : Result String A)
    → Rejects (map_err (λ e. rejected trusted (what <> e)) r)
unfolding rejected
map_err-Rejects trusted what (ok a) = tt
map_err-Rejects trusted what (err e) = (refl, refl)

pub merge-valid :
    (r : Result SigVerificationResult SigVerificationResult)
    → Rejects r
    → (merge r).issuer_sig_valid ≡ true
    → (v : SigVerificationResult) × (r ≡ ok v) × (merge r ≡ v)
unfolding merge
merge-valid (ok v) h valid = (v, refl, refl)
merge-valid (err v) h valid = absurd (false≢true (sym h.0 ∙ valid))

not_skipped :
    (r : Result SigVerificationResult SigVerificationResult)
    → Rejects r
    → ((v : SigVerificationResult) → r ≡ ok v → v.skipped ≡ false)
    → (merge r).skipped ≡ false
unfolding merge
not_skipped (ok v) h k = k v refl
not_skipped (err v) h k = h.1

module _ (x : Jose) where
  issuer_key-Rejects : (header : Header) (cas : List x.Cert) → Rejects (issuer_key x header cas)
  unfolding issuer_key rejected
  issuer_key-Rejects header cas = by_x5c header.x5c refl
    where
      by_x5c :
          (certs : Option (List String)) → header.x5c ≡ certs → Rejects (issuer_key x header cas)
      by_x5c none e = rw (e, issuer_key) (refl, refl)
      by_x5c (some []) e = rw (e, issuer_key) (refl, refl)
      by_x5c (some (first ∷ rest)) e =
          rw (e, issuer_key)
            (map_err-Rejects false "x5c key extraction failed: "
              (extract_key_from_x5c x first rest cas header.alg))

  pub check_signatures-Rejects :
      (raw : String) (cas : List x.Cert) → Rejects (check_signatures x raw cas)
  unfolding check_signatures
  check_signatures-Rejects raw cas =
      >>=-Rejects _ _ (map_err-Rejects false _ (x.decode_header (split_once b'~' raw).0)) (λ header.
        >>=-Rejects _ _ (issuer_key-Rejects header cas) (λ found.
          >>=-Rejects _ _
            (map_err-Rejects found.1 _ (x.decode (split_once b'~' raw).0 found.0 header.alg))
            (λ claims. tt)))

  -- The verification of signatures never answers that it was skipped.
  pub verify_sd_jwt_signatures-not_skipped :
      (raw : String) (cas : List x.Cert) → (verify_sd_jwt_signatures x raw cas).skipped ≡ false
  unfolding verify_sd_jwt_signatures check_signatures
  verify_sd_jwt_signatures-not_skipped raw cas =
      not_skipped (check_signatures x raw cas) (check_signatures-Rejects raw cas) (λ v e.
        let issuer_jwt = (split_once b'~' raw).0 in
        let (header, e1, h1) = >>=-passed (map_err _ (x.decode_header issuer_jwt)) _ e in
        let (found, e2, h2) = >>=-passed (issuer_key x header cas) _ h1 in
        let (claims, e3, h3) =
          >>=-passed (map_err _ (x.decode issuer_jwt found.0 header.alg)) _ h2 in
        ap (λ (w : SigVerificationResult). w.skipped) (sym (ok-injective h3)))
