-- ===== src/Dcql/Validity/Ascii.antt =====
-- Queries whose ids are ASCII: they are accepted whatever `char::is_alphanumeric` says beyond ASCII.
use ewqwe_identity.Prelude.{
  ℕ, String, ◌≡◌, refl, Bool, true, false, ◌&&◌, ◌||◌, ◌==◌, leb, Option, none, some, List, [], ◌∷◌,
  All, arith,
}
use Prim.Native.Char.{code}
use ewqwe_identity.Prelude.Result.{ok}
use ewqwe_identity.Types.{DcqlClaimsQuery, DcqlCredentialQuery, DcqlQuery}
use ewqwe_identity.Dcql.Validity.{id_char, all_id_chars, is_id, is_valid}
use ewqwe_identity.Dcql.Validity.Spec.{claim_ids, ClaimsOk, CredentialOk}
use ewqwe_identity.Dcql.Validity.Law.{is_valid_iff}

-- The letters and digits of ASCII.
abbrev pub ascii_alphanumeric : ℕ → Bool
ascii_alphanumeric c =
    (leb b'a' c && leb c b'z') || (leb b'A' c && leb c b'Z') || (leb b'0' c && leb c b'9')

-- What `char::is_alphanumeric` answers on ASCII letters and digits.
abbrev pub PermitsAscii : (ℕ → Bool) → Type 0
PermitsAscii is_alphanumeric = (c : ℕ) → ascii_alphanumeric c ≡ true → is_alphanumeric c ≡ true

or_mono : (a b c : Bool) → (a ≡ true → b ≡ true) → a || c ≡ true → b || c ≡ true
or_mono true b c f h = rw (f refl)
or_mono false true c f h = refl
or_mono false false c f h = h

module _ (is_alphanumeric : ℕ → Bool) (permits : PermitsAscii is_alphanumeric) where
  id_char_mono : (c : ℕ) → id_char ascii_alphanumeric c ≡ true → id_char is_alphanumeric c ≡ true
  unfolding id_char
  id_char_mono c h =
      or_mono (ascii_alphanumeric c || c == b'_') (is_alphanumeric c || c == b'_') _
        (or_mono (ascii_alphanumeric c) (is_alphanumeric c) _ (permits c)) h

  all_id_chars_mono :
      (s : String)
      → all_id_chars ascii_alphanumeric s ≡ true
      → all_id_chars is_alphanumeric s ≡ true
  unfolding all_id_chars
  all_id_chars_mono String.[] h = refl
  all_id_chars_mono (String.◌∷◌ c s) h = ground (arith, id_char_mono (code c), all_id_chars_mono s)

  pub is_id_mono : (s : String) → is_id ascii_alphanumeric s ≡ true → is_id is_alphanumeric s ≡ true
  unfolding is_id
  is_id_mono s h = ground (arith, all_id_chars_mono s)

  ids_mono :
      (ids : List String)
      → All (λ id. is_id ascii_alphanumeric id ≡ true) ids
      → All (λ id. is_id is_alphanumeric id ≡ true) ids
  ids_mono [] h = tt
  ids_mono (id ∷ ids) h = (is_id_mono id h.0, ids_mono ids h.1)

  claims_mono :
      (claims : Option (List DcqlClaimsQuery)) (sets : Option (List (List String)))
      → ClaimsOk (is_id ascii_alphanumeric) claims sets
      → ClaimsOk (is_id is_alphanumeric) claims sets
  claims_mono none none h = tt
  claims_mono none (some sets) h = absurd h
  claims_mono (some claims) sets h = (ids_mono (claim_ids claims) h.0, h.1, h.2)

  credentials_mono :
      (cs : List DcqlCredentialQuery)
      → All (CredentialOk (is_id ascii_alphanumeric)) cs
      → All (CredentialOk (is_id is_alphanumeric)) cs
  credentials_mono [] h = tt
  credentials_mono (c ∷ cs) (h, hs) = (
    record {
      id_ok = is_id_mono c.id h.id_ok;
      authorities_ok = h.authorities_ok;
      claims_ok = claims_mono c.claims c.claim_sets h.claims_ok;
    },
    credentials_mono cs hs,
  )

  pub is_valid_mono :
      (q : DcqlQuery) → is_valid ascii_alphanumeric q ≡ ok tt → is_valid is_alphanumeric q ≡ ok tt
  is_valid_mono q h =
      let w = (is_valid_iff ascii_alphanumeric q).0 h in
      (is_valid_iff is_alphanumeric q).1 (record {
        some_credential = w.some_credential;
        each_credential = credentials_mono q.credentials w.each_credential;
        distinct = w.distinct;
        sets_ok = w.sets_ok;
      })
