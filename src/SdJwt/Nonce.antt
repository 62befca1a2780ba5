-- ===== src/SdJwt/Nonce.antt =====
-- The nonce of a decoded presentation, and the KB-JWT that the signature check has verified.
use ewqwe_identity.Prelude.{
  String, ◌≡◌, ◌⊎◌, inl, inr, refl, sym, ap, ◌∙◌, true, false, false≢true, Bool-cases, Option, some,
  none, Option-cases, List, [], ◌∷◌, get_or,
}
use ewqwe_identity.Prelude.Text.{split, split_once, has_char}
use ewqwe_identity.Prelude.Result.{ok, >>=-passed, ok-injective, some-injective}
use ewqwe_identity.Json.{Json, end, as_object}
use ewqwe_identity.SdJwt.{DecodedSdJwt, is_kb_jwt}
use ewqwe_identity.SdJwt.Decode.{
  Codec, confirmed, second, nonce_of, decode_json, kb_nonce, read_part, read_parts, payload_of,
  decode_sd_jwt_presentation, Found,
}
use ewqwe_identity.SdJwt.Keys.{Jose, Algorithm}
use ewqwe_identity.SdJwt.Verify.{last_kb_jwt, verify_sd_jwt_signatures}
use ewqwe_identity.SdJwt.Verify.Law.{
  IssuedBy, SignedByHolder, AllValid, verify_sd_jwt_signatures-AllValid_iff,
}

last_kb_jwt-none :
    (part : String) (parts : List String)
    → last_kb_jwt (part ∷ parts) ≡ none
    → (last_kb_jwt parts ≡ none) × (is_kb_jwt part ≡ false)
unfolding last_kb_jwt
last_kb_jwt-none part parts h = elim (Option-cases (last_kb_jwt parts)) [
  | inl e ↦ elim (Bool-cases (is_kb_jwt part)) [
    | inl b ↦ cc (rw (e, b, last_kb_jwt) at h)
    | inr b ↦ (e, b)
  ]
  | inr (kb, e) ↦ cc (rw (e, last_kb_jwt) at h)
]

last_kb_jwt-some :
    (part : String) (parts : List String) {kb : String}
    → last_kb_jwt (part ∷ parts) ≡ some kb
    → (last_kb_jwt parts ≡ some kb)
      ⊎ ((last_kb_jwt parts ≡ none) × (is_kb_jwt part ≡ true) × (part ≡ kb))
unfolding last_kb_jwt
last_kb_jwt-some part parts h = elim (Option-cases (last_kb_jwt parts)) [
  | inl e ↦ elim (Bool-cases (is_kb_jwt part)) [
    | inl b ↦ inr (e, b, some-injective (rw (e, b, last_kb_jwt) at h))
    | inr b ↦ cc (rw (e, b, last_kb_jwt) at h)
  ]
  | inr (kb, e) ↦ inl (e ∙ (rw (e, last_kb_jwt) at h))
]

module _ (x : Codec) where
  read_part-no_kb_jwt :
      (part : String) (found : Found)
      → is_kb_jwt part ≡ false
      → (read_part x part found).1 ≡ found.1
  unfolding read_part
  read_part-no_kb_jwt String.[] found h = refl
  read_part-no_kb_jwt (String.◌∷◌ c part) found h = rw (h, read_part) refl

  read_part-kb_jwt :
      (part : String) (found : Found)
      → is_kb_jwt part ≡ true
      → (read_part x part found).1 ≡ kb_nonce x part found.1
  unfolding read_part is_kb_jwt
  read_part-kb_jwt String.[] found h = absurd (false≢true h)
  read_part-kb_jwt (String.◌∷◌ c part) found h = rw (h, read_part) refl

  read_parts-no_kb_jwt :
      (parts : List String) (found : Found)
      → last_kb_jwt parts ≡ none
      → (read_parts x parts found).1 ≡ found.1
  unfolding read_parts
  read_parts-no_kb_jwt [] found h = refl
  read_parts-no_kb_jwt (part ∷ parts) found h =
      let (later, here) = last_kb_jwt-none part parts h in
      read_parts-no_kb_jwt parts (read_part x part found) later
      ∙ read_part-no_kb_jwt part found here

  kb_nonce-read :
      (kb : String) (payload : Json) (n : Option String)
      → decode_json x (second (split b'.' kb)) ≡ ok payload
      → kb_nonce x kb n ≡ nonce_of payload
  unfolding kb_nonce
  kb_nonce-read kb payload n h = rw (h, kb_nonce) refl

  -- The last KB-JWT alone decides, whatever was found before.
  read_parts-last_kb_jwt :
      (parts : List String) (found : Found) (kb : String) (payload : Json)
      → last_kb_jwt parts ≡ some kb
      → decode_json x (second (split b'.' kb)) ≡ ok payload
      → (read_parts x parts found).1 ≡ nonce_of payload
  unfolding read_parts last_kb_jwt
  read_parts-last_kb_jwt [] found kb payload h d = cc h
  read_parts-last_kb_jwt (part ∷ parts) found kb payload h d =
      elim (last_kb_jwt-some part parts h) [
        | inl later ↦ read_parts-last_kb_jwt parts (read_part x part found) kb payload later d
        | inr (later, here, same) ↦
            read_parts-no_kb_jwt parts (read_part x part found) later
            ∙ read_part-kb_jwt part found here
            ∙ kb_nonce-read part payload found.1 (rw same d)
      ]

  decode-nonce :
      (raw : String) (d : DecodedSdJwt)
      → decode_sd_jwt_presentation x raw ≡ ok d
      → (found : Found) × (found.1 ≡ none)
        × (d.nonce ≡ (read_parts x (split b'~' (split_once b'~' raw).1) found).1)
  unfolding decode_sd_jwt_presentation
  decode-nonce raw d h = elim (Bool-cases (has_char b'~' raw)) [
    | inl e ↦
        let (payload, e1, h1) =
          >>=-passed (payload_of x (split b'.' (split_once b'~' raw).0)) _
            (rw (e, decode_sd_jwt_presentation) at h) in
        (
          (confirmed (get_or (as_object payload) end) end, none),
          refl,
          ap (λ (v : DecodedSdJwt). v.nonce) (sym (ok-injective h1)),
        )
    | inr e ↦ cc (rw (e, decode_sd_jwt_presentation) at h)
  ]

  -- A presentation without a KB-JWT decodes without a nonce.
  pub decode-no_kb_jwt :
      (raw : String) (d : DecodedSdJwt)
      → decode_sd_jwt_presentation x raw ≡ ok d
      → last_kb_jwt (split b'~' (split_once b'~' raw).1) ≡ none
      → d.nonce ≡ none
  decode-no_kb_jwt raw d decodes no_kb =
      let (found, start, same) = decode-nonce raw d decodes in
      same ∙ read_parts-no_kb_jwt (split b'~' (split_once b'~' raw).1) found no_kb ∙ start

module _ (x : Codec) (j : Jose)
    -- A JWT that decodes under some key has its second part, read as JSON, for its claims.
    (claims_of_jwt : (jwt : String) (key : j.DecodingKey) (alg : Algorithm) (claims : Json)
      → j.decode jwt key alg ≡ ok claims
      → decode_json x (second (split b'.' jwt)) ≡ ok claims) where
  -- If the claims of a JWT that decodes under some key are its second part, read as JSON, then a
  -- presentation whose three signature flags hold and that decodes with a nonce has a KB-JWT, its last
  -- one is verified by the holder's key, the key is named by claims that the trusted issuer signed,
  -- and the nonce is the one in the verified payload.
  pub decode_sd_jwt_presentation-nonce_signed :
      (raw : String) (cas : List j.Cert) (d : DecodedSdJwt) (n : String)
      → decode_sd_jwt_presentation x raw ≡ ok d
      → AllValid (verify_sd_jwt_signatures j raw cas)
      → d.nonce ≡ some n
      → (claims : Json) × (kb_jwt : String) × (payload : Json) × IssuedBy j cas
          (split_once b'~' raw).0
          claims
        × (last_kb_jwt (split b'~' (split_once b'~' raw).1) ≡ some kb_jwt)
        × SignedByHolder j kb_jwt claims payload
        × (nonce_of payload ≡ some n)
  decode_sd_jwt_presentation-nonce_signed raw cas d n decodes valid has_nonce =
      let (claims, issued, bound) = (verify_sd_jwt_signatures-AllValid_iff j raw cas).0 valid in
      let (found, start, same) = decode-nonce x raw d decodes in
      elim bound [
        | inl e ↦ cc (
          has_nonce,
          same,
          start,
          read_parts-no_kb_jwt x (split b'~' (split_once b'~' raw).1) found e,
        )
        | inr (kb, payload, e, signed) ↦
            let (header, jwk, key, a, b, c, dec) = signed in
            let reads =
              read_parts-last_kb_jwt x (split b'~' (split_once b'~' raw).1) found kb payload e
                (claims_of_jwt kb key header.alg payload dec) in
            (claims, kb, payload, issued, e, signed, sym reads ∙ sym same ∙ has_nonce)
      ]
