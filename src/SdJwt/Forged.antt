-- ===== src/SdJwt/Forged.antt =====
-- Disclosures that nobody has signed, and where the claims of a presentation come from.
use ewqwe_identity.Prelude.{
  String, ◌<>◌, ◌≡◌, ◌≢◌, inl, inr, refl, ap, true, false, Bool-cases, some, none, List, [], ◌∷◌,
  ◌++◌, get_or,
}
use ewqwe_identity.Prelude.Text.{
  split, split_once, has_char, split-last_part, split_once-append, has_char-append,
}
use ewqwe_identity.Prelude.Result.{Result, ok, >>=-passed, ok-injective}
use ewqwe_identity.Json.{Json, end, as_object}
use ewqwe_identity.Json.Map.{insert}
use ewqwe_identity.Credential.{CredentialError}
use ewqwe_identity.SdJwt.{DecodedSdJwt, is_kb_jwt}
use ewqwe_identity.SdJwt.Decode.{
  Codec, Found, confirmed, decode_disclosure, add_claim, read_part, read_parts, payload_of,
  decode_sd_jwt_presentation,
}
use ewqwe_identity.SdJwt.Keys.{Jose}
use ewqwe_identity.SdJwt.Verify.{
  last_kb_jwt, verify_kb_jwt, check_signatures, verify_sd_jwt_signatures,
}

-- The presentation with one more part at its end.
abbrev pub with_part : String → String → String
with_part raw part = raw <> String.◌∷◌ "~" part

last_kb_jwt-append :
    (parts : List String) (part : String)
    → is_kb_jwt part ≡ false
    → last_kb_jwt (parts ++ (part ∷ [])) ≡ last_kb_jwt parts
unfolding last_kb_jwt
last_kb_jwt-append [] part h = rw (h, last_kb_jwt) refl
last_kb_jwt-append (p ∷ parts) part h = rw (last_kb_jwt-append parts part h, last_kb_jwt) refl

verify_kb_jwt-with_part :
    (j : Jose) (rest part : String) (claims : Json) (errors : List String)
    → has_char b'~' part ≡ false
    → is_kb_jwt part ≡ false
    → verify_kb_jwt j (with_part rest part) claims errors ≡ verify_kb_jwt j rest claims errors
unfolding verify_kb_jwt
verify_kb_jwt-with_part j rest part claims errors h k =
    rw (split-last_part "~" rest part h, last_kb_jwt-append (split b'~' rest) part k, verify_kb_jwt)
      refl

read_parts-append :
    (x : Codec) (parts : List String) (part : String) (found : Found)
    → read_parts x (parts ++ (part ∷ [])) found ≡ read_part x part (read_parts x parts found)
unfolding read_parts
read_parts-append x [] part found = refl
read_parts-append x (p ∷ parts) part found = read_parts-append x parts part (read_part x p found)

read_part-disclosure :
    (x : Codec) (part k : String) (v : Json) (found : Found)
    → is_kb_jwt part ≡ false
    → part ≢ ""
    → decode_disclosure x part ≡ some (k, v)
    → read_part x part found ≡ (insert k v found.0, found.1)
unfolding read_part add_claim
read_part-disclosure x String.[] k v found h nonempty d = absurd (nonempty refl)
read_part-disclosure x (String.◌∷◌ c part) k v found h nonempty d = rw (h, d, read_part) refl

pub decode-has_separator :
    (x : Codec) (raw : String) (d : DecodedSdJwt)
    → decode_sd_jwt_presentation x raw ≡ ok d
    → has_char b'~' raw ≡ true
unfolding decode_sd_jwt_presentation
decode-has_separator x raw d h = elim (Bool-cases (has_char b'~' raw)) [
  | inl e ↦ e
  | inr e ↦ cc (rw (e, decode_sd_jwt_presentation) at h)
]

verify_sd_jwt_signatures-with_part :
    (j : Jose) (raw part : String) (cas : List j.Cert)
    → has_char b'~' raw ≡ true
    → has_char b'~' part ≡ false
    → is_kb_jwt part ≡ false
    → verify_sd_jwt_signatures j (with_part raw part) cas ≡ verify_sd_jwt_signatures j raw cas
unfolding verify_sd_jwt_signatures check_signatures
verify_sd_jwt_signatures-with_part j raw part cas sep plain other =
    rw
      (
        split_once-append b'~' raw (String.◌∷◌ "~" part) sep,
        check_signatures,
        verify_sd_jwt_signatures,
      )
      (simp (λ (c : Json). verify_kb_jwt-with_part j (split_once b'~' raw).1 part c [] plain other))

decode-with_part :
    (x : Codec) (raw part k : String) (v : Json) (d : DecodedSdJwt)
    → has_char b'~' raw ≡ true
    → decode_sd_jwt_presentation x raw ≡ ok d
    → has_char b'~' part ≡ false
    → is_kb_jwt part ≡ false
    → part ≢ ""
    → decode_disclosure x part ≡ some (k, v)
    → decode_sd_jwt_presentation x (with_part raw part)
      ≡ ok (record d { claims = insert k v d.claims })
unfolding decode_sd_jwt_presentation
decode-with_part x raw part k v d sep decodes plain other nonempty disclosed =
    let (payload, e1, h1) =
      >>=-passed (payload_of x (split b'.' (split_once b'~' raw).0)) _
        (rw (sep, decode_sd_jwt_presentation) at decodes) in
    let start : Found = (confirmed (get_or (as_object payload) end) end, none) in
    rw
      (
        has_char-append b'~' raw (String.◌∷◌ "~" part) sep,
        split_once-append b'~' raw (String.◌∷◌ "~" part) sep,
        e1,
        split-last_part "~" (split_once b'~' raw).1 part plain,
        read_parts-append x (split b'~' (split_once b'~' raw).1) part start,
        read_part-disclosure x part k v (read_parts x (split b'~' (split_once b'~' raw).1) start)
            other nonempty disclosed,
        decode_sd_jwt_presentation,
      )
      (ap {A = DecodedSdJwt} {B = Result CredentialError DecodedSdJwt}
        (λ w. ok (record w { claims = insert k v w.claims })) (ok-injective h1))

-- Take a presentation that decodes, and any non-empty disclosure of a claim that is not itself a
-- KB-JWT. With that disclosure put behind it, the presentation gives the same result of signature
-- verification, and it decodes as before except that the claim now has the disclosed value.
pub decode_sd_jwt_presentation-forged :
    (x : Codec) (j : Jose) (raw part k : String) (v : Json) (cas : List j.Cert) (d : DecodedSdJwt)
    → decode_sd_jwt_presentation x raw ≡ ok d
    → has_char b'~' part ≡ false
    → is_kb_jwt part ≡ false
    → part ≢ ""
    → decode_disclosure x part ≡ some (k, v)
    → (verify_sd_jwt_signatures j (with_part raw part) cas ≡ verify_sd_jwt_signatures j raw cas)
      × (decode_sd_jwt_presentation x (with_part raw part)
          ≡ ok (record d { claims = insert k v d.claims }))
decode_sd_jwt_presentation-forged x j raw part k v cas d decodes plain other nonempty disclosed =
    let sep = decode-has_separator x raw d decodes in
    (
      verify_sd_jwt_signatures-with_part j raw part cas sep plain other,
      decode-with_part x raw part k v d sep decodes plain other nonempty disclosed,
    )
