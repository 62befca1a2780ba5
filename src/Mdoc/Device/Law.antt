-- ===== src/Mdoc/Device/Law.antt =====
-- What a session transcript binds.
use ewqwe_identity.Prelude.{
  String, ◌≡◌, ◌⊎◌, inl, inr, refl, sym, ap, ◌∙◌, true, Bool-cases, [], ◌∷◌, arith,
}
use ewqwe_identity.Prelude.Result.{ok, >>=-passed, map_err-eq-ok}
use ewqwe_identity.Cbor.{Cbor}
use ewqwe_identity.Credential.{CredentialResult, because}
use ewqwe_identity.Mdoc.{Externals, Bytes}
use ewqwe_identity.Mdoc.Mso.{bytes_eq}
use ewqwe_identity.Mdoc.Mso.Law.{bytes_eq-true}
use ewqwe_identity.Mdoc.Device.{
  thumbprint_value, handover_info, cbor_to_vec_fallible, transcript_of,
  build_openid4vp_session_transcript,
}
use ewqwe_identity.Mdoc.Verify.{Request}

bytes_eq_refl : (b : Bytes) → bytes_eq b b ≡ true
unfolding bytes_eq
bytes_eq_refl [] = refl
bytes_eq_refl (c ∷ b) = ground (arith, bytes_eq_refl b)

same_or_not : (a b : Bytes) → (a ≡ b) ⊎ ¬ (a ≡ b)
same_or_not a b = elim (Bool-cases (bytes_eq a b)) [
  | inl e ↦ inl (bytes_eq-true a b e)
  | inr e ↦ inr (λ same. cc (rw same at e, bytes_eq_refl b))
]

module _ (x : Externals) where
  abbrev pub transcript : Request → CredentialResult Bytes
  transcript q =
      build_openid4vp_session_transcript x q.client_id q.nonce q.response_uri q.requires_encryption
        q.response_jwk_thumbprint

  -- Two different texts of bytes with one hash.
  abbrev pub Collision : Type 0
  Collision = (a : Bytes) × (b : Bytes) × (¬ (a ≡ b)) × (x.sha256_of a ≡ x.sha256_of b)

  transcript-parts :
      (q : Request) (t : Bytes)
      → transcript q ≡ ok t
      → (thumb : Cbor) × (info : Bytes) × (thumbprint_value q.requires_encryption
            q.response_jwk_thumbprint
          ≡ ok thumb)
        × (x.into_writer (handover_info q.client_id q.nonce thumb q.response_uri) ≡ ok info)
        × (x.into_writer (transcript_of x info) ≡ ok t)
  unfolding build_openid4vp_session_transcript cbor_to_vec_fallible
  transcript-parts q t h =
      let (thumb, e1, h1) =
        >>=-passed (thumbprint_value q.requires_encryption q.response_jwk_thumbprint) _ h in
      let (info, e2, h2) =
        >>=-passed
          (because _ (x.into_writer (handover_info q.client_id q.nonce thumb q.response_uri))) _
          h1 in
      (
        thumb,
        info,
        e1,
        map_err-eq-ok _ _ e2,
        map_err-eq-ok _ (x.into_writer (transcript_of x info)) h2,
      )

  transcript_of-hash :
      (a b : Bytes) → transcript_of x a ≡ transcript_of x b → x.sha256_of a ≡ x.sha256_of b
  unfolding transcript_of
  transcript_of-hash a b h = cc h

  handover_info-injective :
      (c d n m : String) (s t : Cbor) (u v : String)
      → handover_info c n s u ≡ handover_info d m t v
      → (c ≡ d) × (n ≡ m) × (s ≡ t) × (u ≡ v)
  unfolding handover_info
  handover_info-injective c d n m s t u v h = (cc h, cc h, cc h, cc h)

  -- If CBOR that is written alike is alike, then two requests with one session transcript have the
  -- same client, nonce, response URI and thumbprint value, or a collision of SHA-256 is at hand.
  pub build_openid4vp_session_transcript-binds :
      ((v w : Cbor) (b : Bytes) → x.into_writer v ≡ ok b → x.into_writer w ≡ ok b → v ≡ w)
      → (p q : Request) (t : Bytes) → transcript p ≡ ok t
      → transcript q ≡ ok t
      → ((p.client_id ≡ q.client_id)
          × (p.nonce ≡ q.nonce)
          × (p.response_uri ≡ q.response_uri)
          × (thumbprint_value p.requires_encryption p.response_jwk_thumbprint
              ≡ thumbprint_value q.requires_encryption q.response_jwk_thumbprint))
        ⊎ Collision
  build_openid4vp_session_transcript-binds reads_back p q t hp hq =
      let (s, a, p1, p2, p3) = transcript-parts p t hp in
      let (u, b, q1, q2, q3) = transcript-parts q t hq in
      let hash = transcript_of-hash a b (reads_back _ _ t p3 q3) in
      elim (same_or_not a b) [
        | inl same ↦
            let (e1, e2, e3, e4) =
              handover_info-injective _ _ _ _ _ _ _ _ (reads_back _ _ b (p2 ∙ ap ok same) q2) in
            inl (e1, e2, e4, p1 ∙ ap ok e3 ∙ sym q1)
        | inr different ↦ inr (a, b, different, hash)
      ]
