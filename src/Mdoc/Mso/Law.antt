-- ===== src/Mdoc/Mso/Law.antt =====
-- What the check of the digests has checked.
use mathlib.Core.Path.{subst}
use mathlib.Core.List.{Memᴰ}
use mathlib.Core.List.Memᴰ
use ewqwe_identity.Prelude.{
  ℕ, compare, String, ◌≡◌, inl, inr, refl, sym, ap, ◌∙◌, str_compare, Bool, true, false, ◌&&◌, some,
  List, [], ◌∷◌, ◌==◌, arith,
}
use ewqwe_identity.Prelude.BtreeMap.{map_get}
use ewqwe_identity.Prelude.Result.{ok, >>=-passed, ok_or-eq-ok, map_err-eq-ok, some-injective}
use ewqwe_identity.Cbor.{
  Cbor, integer, bytes, float, text, boolean, nothing, tag, array, map_of, other, unwrap_cbor_tags,
  as_cbor_map, as_cbor_array, cbor_map_get, cbor_integer_to_u64,
}
use ewqwe_identity.Credential.{invalid_presentation, need, because}
use ewqwe_identity.Mdoc.{Externals, Bytes}
use ewqwe_identity.Mdoc.Cose.{must}
use ewqwe_identity.Mdoc.Mso.{
  Digests, ParsedMobileSecurityObject, map_within, bytes_eq, item_bytes, hash_issuer_signed_item,
  verify_item, verify_items, verify_issuer_signed_item_digests,
}

pub must-true : (b : Bool) (what : String) → must b what ≡ ok tt → b ≡ true
unfolding must
must-true true what h = refl
must-true false what h = cc h

both : (a b : Bool) → a && b ≡ true → (a ≡ true) × (b ≡ true)
both true b h = (refl, h)
both false b h = cc h

pub bytes_eq-true : (a b : Bytes) → bytes_eq a b ≡ true → a ≡ b
unfolding bytes_eq
bytes_eq-true [] [] h = refl
bytes_eq-true [] (c ∷ b) h = cc h
bytes_eq-true (c ∷ a) [] h = cc h
bytes_eq-true (c ∷ a) (d ∷ b) h =
    let (here, later) = both (c == d) (bytes_eq a b) h in
    let same : c ≡ d = ground arith in cc (same, bytes_eq-true a b later)

pub as_cbor_array-unwrap :
    (v : Cbor) {vs : List Cbor}
    → as_cbor_array v ≡ some vs
    → as_cbor_array (unwrap_cbor_tags v) ≡ some vs
unfolding as_cbor_array unwrap_cbor_tags
as_cbor_array-unwrap (array vs) h = h
as_cbor_array-unwrap (tag n v) h = cc h
as_cbor_array-unwrap (integer i) h = h
as_cbor_array-unwrap (bytes b) h = h
as_cbor_array-unwrap (float f) h = h
as_cbor_array-unwrap (text t) h = h
as_cbor_array-unwrap (boolean b) h = h
as_cbor_array-unwrap nothing h = h
as_cbor_array-unwrap (map_of es) h = h
as_cbor_array-unwrap other h = h

pub as_cbor_map-unwrap :
    (v : Cbor) {es : List (Cbor × Cbor)}
    → as_cbor_map v ≡ some es
    → as_cbor_map (unwrap_cbor_tags v) ≡ some es
unfolding as_cbor_map unwrap_cbor_tags
as_cbor_map-unwrap (map_of es) h = h
as_cbor_map-unwrap (tag n v) h = cc h
as_cbor_map-unwrap (integer i) h = h
as_cbor_map-unwrap (bytes b) h = h
as_cbor_map-unwrap (float f) h = h
as_cbor_map-unwrap (text t) h = h
as_cbor_map-unwrap (boolean b) h = h
as_cbor_map-unwrap nothing h = h
as_cbor_map-unwrap (array vs) h = h
as_cbor_map-unwrap other h = h

pub map_within-some :
    (v : Cbor) (what : String) {es : List (Cbor × Cbor)}
    → map_within v what ≡ ok es
    → as_cbor_map (unwrap_cbor_tags v) ≡ some es
unfolding map_within
map_within-some v what h =
    ok_or-eq-ok (as_cbor_map (unwrap_cbor_tags v)) (invalid_presentation what) h

module _ (x : Externals) where
  -- The hash of the item's encoding is the digest that the object has, in the namespace, under the
  -- digest id that the item names.
  abbrev pub Attested : String → Digests → Cbor → Type 0
  Attested algorithm expected item =
      (inner_bytes : Bytes) × (inner : Cbor) × (inner_map : List (Cbor × Cbor)) × (id_value : Cbor)
      × (digest_id : ℕ) × (digest : Bytes) × (encoding : Bytes) × (item_bytes item ≡ ok inner_bytes)
      × (x.from_reader inner_bytes ≡ ok inner)
      × (as_cbor_map (unwrap_cbor_tags inner) ≡ some inner_map)
      × (cbor_map_get inner_map "digestID" ≡ some id_value)
      × (cbor_integer_to_u64 id_value ≡ some digest_id)
      × (map_get compare digest_id expected ≡ some digest)
      × (x.into_writer item ≡ ok encoding)
      × (hash_issuer_signed_item x algorithm encoding ≡ ok digest)

  verify_item-Attested :
      (algorithm namespace : String) (expected : Digests) (item : Cbor)
      → verify_item x algorithm namespace expected item ≡ ok tt
      → Attested algorithm expected item
  unfolding verify_item
  verify_item-Attested algorithm namespace expected item h =
      let (b, e1, h1) = >>=-passed (item_bytes item) _ h in
      let (encoding, e2, h2) = >>=-passed (because _ (x.into_writer item)) _ h1 in
      let (inner, e3, h3) = >>=-passed (because _ (x.from_reader b)) _ h2 in
      let (m, e4, h4) = >>=-passed (map_within inner _) _ h3 in
      let (v, e5, h5) = >>=-passed (need (cbor_map_get m "digestID") _) _ h4 in
      let (id, e6, h6) = >>=-passed (need (cbor_integer_to_u64 v) _) _ h5 in
      let (digest, e7, h7) = >>=-passed (need (map_get compare id expected) _) _ h6 in
      let (actual, e8, h8) = >>=-passed (hash_issuer_signed_item x algorithm encoding) _ h7 in
      let same = bytes_eq-true actual digest (must-true (bytes_eq actual digest) _ h8) in
      (
        b,
        inner,
        m,
        v,
        id,
        digest,
        encoding,
        e1,
        map_err-eq-ok _ _ e3,
        map_within-some inner _ e4,
        ok_or-eq-ok _ _ e5,
        ok_or-eq-ok _ _ e6,
        ok_or-eq-ok _ _ e7,
        map_err-eq-ok _ _ e2,
        e8 ∙ ap ok same,
      )

  verify_items-Attested :
      (algorithm namespace : String) (expected : Digests) (items : List Cbor) (item : Cbor)
      → verify_items x algorithm namespace expected items ≡ ok tt
      → Memᴰ item items
      → Attested algorithm expected item
  unfolding verify_items
  verify_items-Attested algorithm namespace expected [] item h m = absurd (Memᴰ.not-nil m)
  verify_items-Attested algorithm namespace expected (i ∷ items) item h m =
      let (u, e1, h1) = >>=-passed (verify_item x algorithm namespace expected i) _ h in
      elim (Memᴰ.cases_cons m) [
        | inl same ↦ rw same (verify_item-Attested algorithm namespace expected i e1)
        | inr later ↦ verify_items-Attested algorithm namespace expected items item h1 later
      ]

  digests_of_rest :
      (k w : Cbor) (es : List (Cbor × Cbor)) (mso : ParsedMobileSecurityObject)
      → verify_issuer_signed_item_digests x ((k, w) ∷ es) mso ≡ ok tt
      → verify_issuer_signed_item_digests x es mso ≡ ok tt
  unfolding verify_issuer_signed_item_digests
  digests_of_rest (text ns) w es mso h =
      let (expected, e1, h1) = >>=-passed (need (map_get str_compare ns mso.value_digests) _) _ h in
      let (items, e2, h2) = >>=-passed (need (as_cbor_array (unwrap_cbor_tags w)) _) _ h1 in
      (>>=-passed (verify_items x mso.digest_algorithm ns expected items) _ h2).2
  digests_of_rest (tag n v) w es mso h = h
  digests_of_rest (integer i) w es mso h = h
  digests_of_rest (bytes b) w es mso h = h
  digests_of_rest (float f) w es mso h = h
  digests_of_rest (array vs) w es mso h = h
  digests_of_rest (boolean b) w es mso h = h
  digests_of_rest nothing w es mso h = h
  digests_of_rest (map_of m) w es mso h = h
  digests_of_rest other w es mso h = h

  digests_of_first :
      (ns : String) (w : Cbor) (es : List (Cbor × Cbor)) (mso : ParsedMobileSecurityObject)
      (items : List Cbor) (item : Cbor)
      → verify_issuer_signed_item_digests x ((text ns, w) ∷ es) mso ≡ ok tt
      → as_cbor_array w ≡ some items
      → Memᴰ item items
      → (expected : Digests) × (map_get str_compare ns mso.value_digests ≡ some expected)
        × Attested mso.digest_algorithm expected item
  unfolding verify_issuer_signed_item_digests
  digests_of_first ns w es mso items item h is_array m =
      let (expected, e1, h1) = >>=-passed (need (map_get str_compare ns mso.value_digests) _) _ h in
      let (items2, e2, h2) = >>=-passed (need (as_cbor_array (unwrap_cbor_tags w)) _) _ h1 in
      let (u, e3, h3) = >>=-passed (verify_items x mso.digest_algorithm ns expected items2) _ h2 in
      let same : items2 ≡ items =
        some-injective (sym (ok_or-eq-ok _ _ e2) ∙ as_cbor_array-unwrap w is_array) in
      (
        expected,
        ok_or-eq-ok _ _ e1,
        verify_items-Attested mso.digest_algorithm ns expected items2 item e3 (rw same m),
      )

  -- Where the digests have been checked, every item of an array under a text key is attested by the
  -- digests of that namespace.
  pub verify_issuer_signed_item_digests-Attested :
      (es : List (Cbor × Cbor)) (mso : ParsedMobileSecurityObject) (namespace : String) (v : Cbor)
      (items : List Cbor) (item : Cbor)
      → verify_issuer_signed_item_digests x es mso ≡ ok tt
      → Memᴰ (text namespace, v) es
      → as_cbor_array v ≡ some items
      → Memᴰ item items
      → (expected : Digests) × (map_get str_compare namespace mso.value_digests ≡ some expected)
        × Attested mso.digest_algorithm expected item
  unfolding verify_issuer_signed_item_digests
  verify_issuer_signed_item_digests-Attested [] mso namespace v items item h here is_array m =
      absurd (Memᴰ.not-nil here)
  verify_issuer_signed_item_digests-Attested ((k, w) ∷ es) mso namespace v items item h here
        is_array m =
      elim (Memᴰ.cases_cons here) [
        | inl same ↦
            digests_of_first namespace v es mso items item
              (subst (λ (e : Cbor × Cbor). verify_issuer_signed_item_digests x (e ∷ es) mso ≡ ok tt)
                (sym same) h)
              is_array m
        | inr later ↦
            verify_issuer_signed_item_digests-Attested es mso namespace v items item
              (digests_of_rest k w es mso h) later is_array m
      ]
