-- ===== src/SdJwt/Verify/Law.antt =====
-- Whose signatures an accepted presentation has.
use ewqwe_identity.Prelude.{
  String, ◌≡◌, ◌↔◌, ◌⊎◌, inl, inr, refl, ap, sym, ◌∙◌, Bool, true, false≢true, Option, some, none,
  Option-cases, List, [], ◌∷◌,
}
use ewqwe_identity.Prelude.Text.{split, split_once}
use ewqwe_identity.Prelude.Result.{
  Result, ok, err, map_err, ok_or, >>=-passed, ok_or-eq-ok, ok-injective, map_err-eq-ok,
}
use ewqwe_identity.Json.{Json}
use ewqwe_identity.SdJwt.{SigVerificationResult}
use ewqwe_identity.SdJwt.Keys.{
  Jose, Header, load_cert, load_intermediates, leaf_key, extract_key_from_x5c,
  build_decoding_key_from_jwk,
}
use ewqwe_identity.SdJwt.Verify.Early.{merge-valid, check_signatures-Rejects}
use ewqwe_identity.SdJwt.Verify.{
  last_kb_jwt, cnf_jwk, pushed, merge, check_kb_jwt, verify_kb_jwt, issuer_key, check_signatures,
  verify_sd_jwt_signatures,
}

abbrev pub AllValid : SigVerificationResult → Type 0
AllValid v = (v.issuer_sig_valid ≡ true) × (v.kb_sig_valid ≡ true) × (v.issuer_trusted ≡ true)

module _ (x : Jose) where
  -- The JWT decodes to the claims under the key of a certificate that its own header carries, and
  -- that certificate chains to a trusted one.
  abbrev pub IssuedBy : List x.Cert → String → Json → Type 0
  IssuedBy trusted_cas jwt claims =
      (header : Header) × (first : String) × (rest : List String) × (leaf : x.Cert)
      × (intermediates : List x.Cert) × (key : x.DecodingKey) × (x.decode_header jwt ≡ ok header)
      × (header.x5c ≡ some (first ∷ rest))
      × (load_cert x "x5c[0]" first ≡ ok leaf)
      × (load_intermediates x rest ≡ ok intermediates)
      × (x.verify_cert trusted_cas leaf intermediates ≡ true)
      × (leaf_key x leaf header.alg ≡ ok key)
      × (x.decode jwt key header.alg ≡ ok claims)

  -- The JWT decodes under the key that the issuer's claims name in `cnf.jwk`.
  abbrev pub SignedByHolder : String → Json → Json → Type 0
  SignedByHolder kb_jwt claims payload =
      (header : Header) × (jwk : Json) × (key : x.DecodingKey) × (x.decode_header kb_jwt
        ≡ ok header)
      × (cnf_jwk claims ≡ some jwk)
      × (build_decoding_key_from_jwk x jwk header.alg ≡ ok key)
      × (x.decode kb_jwt key header.alg ≡ ok payload)

  -- There is no KB-JWT, or the last one is signed by the holder.
  abbrev pub HolderBound : String → Json → Type 0
  HolderBound rest claims =
      (last_kb_jwt (split b'~' rest) ≡ none)
      ⊎ ((kb_jwt : String) × (payload : Json) × (last_kb_jwt (split b'~' rest) ≡ some kb_jwt)
          × SignedByHolder kb_jwt claims payload)

  check_kb_jwt-SignedByHolder :
      (kb_jwt : String) (claims : Json)
      → check_kb_jwt x kb_jwt claims ≡ ok tt
      → (payload : Json) × SignedByHolder kb_jwt claims payload
  unfolding check_kb_jwt
  check_kb_jwt-SignedByHolder kb_jwt claims h =
      let (header, e1, h1) = >>=-passed (map_err _ (x.decode_header kb_jwt)) _ h in
      let (jwk, e2, h2) = >>=-passed (ok_or (cnf_jwk claims) _) _ h1 in
      let (key, e3, h3) =
        >>=-passed (map_err _ (build_decoding_key_from_jwk x jwk header.alg)) _ h2 in
      let (payload, e4, h4) = >>=-passed (map_err _ (x.decode kb_jwt key header.alg)) _ h3 in
      (
        payload,
        (
          header,
          jwk,
          key,
          map_err-eq-ok _ _ e1,
          ok_or-eq-ok _ _ e2,
          map_err-eq-ok _ _ e3,
          map_err-eq-ok _ _ e4,
        ),
      )

  SignedByHolder-check_kb_jwt :
      (kb_jwt : String) (claims payload : Json)
      → SignedByHolder kb_jwt claims payload
      → check_kb_jwt x kb_jwt claims ≡ ok tt
  unfolding check_kb_jwt
  SignedByHolder-check_kb_jwt kb_jwt claims payload (header, jwk, key, a, b, c, d) =
      rw (a, b, c, d) refl

  pushed-true :
      (r : Result String (Unit {0})) (errors : List String) → (pushed r errors).0 ≡ true → r ≡ ok tt
  unfolding pushed
  pushed-true (ok tt) errors h = refl
  pushed-true (err e) errors h = absurd (false≢true h)

  verify_kb_jwt-HolderBound :
      (rest : String) (claims : Json) (errors : List String)
      → ((verify_kb_jwt x rest claims errors).0 ≡ true) ↔ HolderBound rest claims
  unfolding verify_kb_jwt pushed
  verify_kb_jwt-HolderBound rest claims errors =
      elim (Option-cases (last_kb_jwt (split b'~' rest))) [
        | inl e ↦ (λ h. inl e, λ h. rw (e, verify_kb_jwt) refl)
        | inr (kb, e) ↦ (
          λ h.
              let (payload, s) =
                check_kb_jwt-SignedByHolder kb claims
                  (pushed-true (check_kb_jwt x kb claims) errors (rw (e, verify_kb_jwt) at h)) in
              inr (kb, payload, e, s),
          elim [
            | inl gone ↦ cc (e, gone)
            | inr (kb2, payload, same, s) ↦
                rw (same, SignedByHolder-check_kb_jwt kb2 claims payload s, verify_kb_jwt) refl
          ],
        )
      ]

  issuer_key-trusted :
      (header : Header) (cas : List x.Cert) {key : x.DecodingKey} {trusted : Bool}
      → issuer_key x header cas ≡ ok (key, trusted)
      → (first : String) × (rest : List String) × (header.x5c ≡ some (first ∷ rest))
        × (extract_key_from_x5c x first rest cas header.alg ≡ ok (key, trusted))
  unfolding issuer_key
  issuer_key-trusted header cas {key} {trusted} h = by_x5c header.x5c refl
    where
      Goal : Type 0
      Goal =
          (first : String) × (rest : List String) × (header.x5c ≡ some (first ∷ rest))
          × (extract_key_from_x5c x first rest cas header.alg ≡ ok (key, trusted))

      by_x5c : (certs : Option (List String)) → header.x5c ≡ certs → Goal
      by_x5c none e = cc (rw (e, issuer_key) at h)
      by_x5c (some []) e = cc (rw (e, issuer_key) at h)
      by_x5c (some (first ∷ rest)) e = (first, rest, e, map_err-eq-ok _ _ (rw (e, issuer_key) at h))

  accepted :
      (raw : String) (cas : List x.Cert)
      → AllValid (verify_sd_jwt_signatures x raw cas)
      → (claims : Json) × IssuedBy cas (split_once b'~' raw).0 claims
        × HolderBound (split_once b'~' raw).1 claims
  unfolding verify_sd_jwt_signatures check_signatures extract_key_from_x5c
  accepted raw cas (a, b, c) =
      let (issuer_jwt, rest) = split_once b'~' raw in
      let (v, ev, same) =
        merge-valid (check_signatures x raw cas) (check_signatures-Rejects x raw cas) a in
      let (header, e1, h1) = >>=-passed (map_err _ (x.decode_header issuer_jwt)) _ ev in
      let ((key, trusted), e2, h2) = >>=-passed (issuer_key x header cas) _ h1 in
      let (claims, e3, h3) = >>=-passed (map_err _ (x.decode issuer_jwt key header.alg)) _ h2 in
      let (first, certs, e4, e5) = issuer_key-trusted header cas e2 in
      let (leaf, e6, h6) = >>=-passed (load_cert x "x5c[0]" first) _ e5 in
      let (ints, e7, h7) = >>=-passed (load_intermediates x certs) _ h6 in
      let (key2, e8, h8) = >>=-passed (leaf_key x leaf header.alg) _ h7 in
      let pair = ok-injective h8 in
      let flags = ok-injective h3 ∙ sym same in
      (
        claims,
        (
          header,
          first,
          certs,
          leaf,
          ints,
          key,
          map_err-eq-ok _ _ e1,
          e4,
          e6,
          e7,
          ap (λ (p : x.DecodingKey × Bool). p.1) pair
              ∙ ap (λ (w : SigVerificationResult). w.issuer_trusted) flags
              ∙ c,
          e8 ∙ ap ok (ap (λ (p : x.DecodingKey × Bool). p.0) pair),
          map_err-eq-ok _ _ e3,
        ),
        (verify_kb_jwt-HolderBound rest claims []).0
            (ap (λ (w : SigVerificationResult). w.kb_sig_valid) flags ∙ b),
      )

  accepts :
      (raw : String) (cas : List x.Cert)
      → ((claims : Json) × IssuedBy cas (split_once b'~' raw).0 claims
          × HolderBound (split_once b'~' raw).1 claims)
      → AllValid (verify_sd_jwt_signatures x raw cas)
  unfolding verify_sd_jwt_signatures check_signatures issuer_key extract_key_from_x5c merge
  accepts raw cas (claims, (header, first, rest, leaf, ints, key, a, b, c, d, e, f, g), bound) =
      rw (a, b, c, d, e, f, g)
        (refl, (verify_kb_jwt-HolderBound (split_once b'~' raw).1 claims []).1 bound, refl)

  -- The three signature flags hold exactly when the issuer's JWT carries a certificate that chains to
  -- a trusted one and whose own key verifies it, and there is no KB-JWT or the last one is verified by
  -- the holder's key that the verified claims name.
  pub verify_sd_jwt_signatures-AllValid_iff :
      (raw : String) (cas : List x.Cert)
      → AllValid (verify_sd_jwt_signatures x raw cas) ↔ (
          (claims : Json) × IssuedBy cas (split_once b'~' raw).0 claims
          × HolderBound (split_once b'~' raw).1 claims)
  verify_sd_jwt_signatures-AllValid_iff raw cas = (accepted raw cas, accepts raw cas)
