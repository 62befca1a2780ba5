-- ===== src/SdJwt/Origin.antt =====
-- Where the claims of a decoded presentation come from.
use ewqwe_identity.Prelude.{
  String, ◌≡◌, ◌⊎◌, inl, inr, refl, ap, true, false, Bool-cases, Option, some, none, List, [], ◌∷◌,
  if◌then◌else◌, get_or, contains, str_eq, eq_iff,
}
use ewqwe_identity.Prelude.Text.{split, split_once, has_char}
use ewqwe_identity.Prelude.Result.{ok, >>=-passed, ok-injective}
use ewqwe_identity.Json.{Json, Fields, end, field, as_object}
use ewqwe_identity.Json.Map.{insert}
use ewqwe_identity.Json.Origin.{Has, insert-Has}
use ewqwe_identity.SdJwt.{DecodedSdJwt, is_kb_jwt}
use ewqwe_identity.SdJwt.Decode.{
  Codec, Found, skip_claims, confirmed, decode_disclosure, add_claim, read_part, read_parts,
  payload_of, decode_sd_jwt_presentation,
}

-- An entry of the payload whose name is not reserved.
abbrev pub FromPayload : String → Json → Fields → Type 0
FromPayload k v payload = Has k v payload × (contains skip_claims k ≡ false)

-- A part of the presentation that discloses the claim.
abbrev pub FromDisclosure : Codec → String → Json → List String → Type 0
FromDisclosure x k v parts =
    (part : String) × (contains parts part ≡ true)
    × (is_kb_jwt part ≡ false)
    × (decode_disclosure x part ≡ some (k, v))

confirmed-Has :
    (k : String) (v : Json) (fs claims : Fields)
    → Has k v (confirmed fs claims)
    → FromPayload k v fs ⊎ Has k v claims
unfolding confirmed
confirmed-Has k v end claims h = inr h
confirmed-Has k v (field j w fs) claims h =
    elim (confirmed-Has k v fs (if contains skip_claims j then claims else insert j w claims) h) [
      | inl (later, free) ↦ inl (inr later, free)
      | inr found ↦ elim (Bool-cases (contains skip_claims j)) [
        | inl e ↦ inr (rw e at found)
        | inr e ↦ elim (insert-Has k j v w claims (rw e at found)) [
          | inl (same, value) ↦ inl (inl (same, value), rw same at e)
          | inr old ↦ inr old
        ]
      ]
    ]

add_claim-Has :
    (k : String) (v : Json) (o : Option (String × Json)) (claims : Fields)
    → Has k v (add_claim o claims)
    → (o ≡ some (k, v)) ⊎ Has k v claims
unfolding add_claim
add_claim-Has k v none claims h = inr h
add_claim-Has k v (some (j, w)) claims h = elim (insert-Has k j v w claims h) [
  | inl (same, value) ↦ inl (cc (same, value))
  | inr old ↦ inr old
]

contains-first : (p : String) (parts : List String) → contains (p ∷ parts) p ≡ true
contains-first p parts = rw ((eq_iff p p).1 refl) refl

contains-later :
    (p : String) (parts : List String) (q : String)
    → contains parts q ≡ true
    → contains (p ∷ parts) q ≡ true
contains-later p parts q h = elim (Bool-cases (str_eq p q)) [ inl e ↦ rw e refl | inr e ↦ rw e h ]

confirmed-FromPayload :
    (k : String) (v : Json) (fs : Fields) → Has k v (confirmed fs end) → FromPayload k v fs
confirmed-FromPayload k v fs h = elim (confirmed-Has k v fs end h) [
  | inl found ↦ found
  | inr none_left ↦ absurd none_left
]

module _ (x : Codec) where
  read_part-Has :
      (part k : String) (v : Json) (found : Found)
      → Has k v (read_part x part found).0
      → ((is_kb_jwt part ≡ false) × (decode_disclosure x part ≡ some (k, v))) ⊎ Has k v found.0
  unfolding read_part
  read_part-Has String.[] k v found h = inr h
  read_part-Has (String.◌∷◌ c s) k v found h = elim (Bool-cases (is_kb_jwt (String.◌∷◌ c s))) [
    | inl e ↦ inr (rw (e, read_part) at h)
    | inr e ↦
        elim (add_claim-Has k v (decode_disclosure x (String.◌∷◌ c s)) found.0
          (rw (e, read_part) at h)) [ inl d ↦ inl (e, d) | inr old ↦ inr old ]
  ]

  read_parts-Has :
      (parts : List String) (k : String) (v : Json) (found : Found)
      → Has k v (read_parts x parts found).0
      → FromDisclosure x k v parts ⊎ Has k v found.0
  unfolding read_parts
  read_parts-Has [] k v found h = inr h
  read_parts-Has (p ∷ parts) k v found h = elim (read_parts-Has parts k v (read_part x p found) h) [
    | inl (part, inside, other, d) ↦ inl (part, contains-later p parts part inside, other, d)
    | inr here ↦ elim (read_part-Has p k v found here) [
      | inl (other, d) ↦ inl (p, contains-first p parts, other, d)
      | inr old ↦ inr old
    ]
  ]

  -- Every claim of a decoded presentation is an entry of the issuer's payload whose name is not
  -- reserved, or stands in a disclosure among the parts behind the issuer's JWT.
  pub decode_sd_jwt_presentation-origin :
      (raw : String) (d : DecodedSdJwt) (k : String) (v : Json)
      → decode_sd_jwt_presentation x raw ≡ ok d
      → Has k v d.claims
      → ((payload : Json) × (payload_of x (split b'.' (split_once b'~' raw).0) ≡ ok payload)
          × FromPayload k v (get_or (as_object payload) end))
        ⊎ FromDisclosure x k v (split b'~' (split_once b'~' raw).1)
  unfolding decode_sd_jwt_presentation
  decode_sd_jwt_presentation-origin raw d k v decodes has = elim (Bool-cases (has_char b'~' raw)) [
    | inl e ↦
        let (payload, e1, h1) =
          >>=-passed (payload_of x (split b'.' (split_once b'~' raw).0)) _
            (rw (e, decode_sd_jwt_presentation) at decodes) in
        let start : Found = (confirmed (get_or (as_object payload) end) end, none) in
        let parts = split b'~' (split_once b'~' raw).1 in
        let same : (read_parts x parts start).0 ≡ d.claims =
          ap (λ (w : DecodedSdJwt). w.claims) (ok-injective h1) in
        elim (read_parts-Has parts k v start (rw same has)) [
          | inl found ↦ inr found
          | inr old ↦
              inl (payload, e1, confirmed-FromPayload k v (get_or (as_object payload) end) old)
        ]
    | inr e ↦ cc (rw (e, decode_sd_jwt_presentation) at decodes)
  ]
