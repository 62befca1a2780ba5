-- ===== src/Mdoc/Verify/Law/Items.antt =====
-- The claims of an accepted mdoc presentation are the issuer's.
use mathlib.Core.List.{Memᴰ}
use mathlib.Core.Path.{subst}
use ewqwe_identity.Prelude.{
  String, ◌≡◌, inl, inr, sym, ap, ◌∙◌, Bool, Bool-cases, str_compare, some, Option-cases, List, [],
  opt_map, first, is_some,
}
use ewqwe_identity.Prelude.BtreeMap.{map_get}
use ewqwe_identity.Prelude.Int.{ℤ}
use ewqwe_identity.Prelude.Result.{
  ok, >>=-passed, ok_or-eq-ok, ok-injective, some-injective, map_err, map_err-eq-ok,
}
use ewqwe_identity.Json.{Json}
use ewqwe_identity.Cbor.{
  Cbor, unwrap_cbor_tags, as_cbor_map, as_cbor_array, cbor_map_get, cbor_map_get_text,
}
use ewqwe_identity.Credential.{need, because}
use ewqwe_identity.Mdoc.{Externals}
use ewqwe_identity.Mdoc.Decode.{
  DecodedMdoc, Claims, decode_base64, decode_mdoc_presentation, extract_document, parse_document,
  collect_namespaces, parse_issuer_signed_item,
}
use ewqwe_identity.Mdoc.Decode.Law.{collect_namespaces-item}
use ewqwe_identity.Mdoc.Mso.{ParsedMobileSecurityObject, Digests, validate_mso_validity}
use ewqwe_identity.Mdoc.Mso.Law.{
  Attested, as_cbor_array-unwrap, as_cbor_map-unwrap, verify_issuer_signed_item_digests-Attested,
}
use ewqwe_identity.Mdoc.Verify.{
  MdocVerificationResult, Request, extract_first_document, claims_json, verify_document,
  verify_mdoc_presentation,
}
use ewqwe_identity.Mdoc.Verify.Law.{
  Passed, verify_document-Passed, SignedByIssuer, verify_issuer_auth-SignedByIssuer,
}

-- Both readers of the response take the same document.
same_document :
    (cbor a b : Cbor) → extract_document cbor ≡ ok a → extract_first_document cbor ≡ ok b → a ≡ b
unfolding extract_document extract_first_document
same_document cbor a b h k =
    let (m, e1, h1) = >>=-passed (need (as_cbor_map (unwrap_cbor_tags cbor)) _) _ h in
    let (n, e2, k1) = >>=-passed (need (as_cbor_map (unwrap_cbor_tags cbor)) _) _ k in
    let same : n ≡ m = some-injective (sym (ok_or-eq-ok _ _ e2) ∙ ok_or-eq-ok _ _ e1) in
    elim (Option-cases (cbor_map_get m "documents")) [
      | inl e ↦ elim (Bool-cases (is_some (cbor_map_get m "docType"))) [
        | inl t ↦ ok-injective {a = a} {b = b} (sym (rw (e, t) at h1) ∙ (rw (same, e) at k1))
        | inr t ↦ cc (rw (e, t) at h1)
      ]
      | inr (docs, e) ↦
          let (vs, e3, h3) = >>=-passed (need (as_cbor_array docs) _) _ (rw e at h1) in
          let (ws, e4, k3) =
            >>=-passed (need (as_cbor_array (unwrap_cbor_tags docs)) _) _ (rw (same, e) at k1) in
          let same_list : ws ≡ vs =
            some-injective
              (sym (ok_or-eq-ok _ _ e4) ∙ as_cbor_array-unwrap docs (ok_or-eq-ok _ _ e3)) in
          some-injective (
            sym (ok_or-eq-ok (first vs) _ h3)
            ∙ ap first (sym same_list)
            ∙ ok_or-eq-ok (first ws) _ k3)
    ]

module _ (x : Externals) where
  -- The entries that the decoder has read.
  abbrev Read : Cbor → DecodedMdoc → Type 0
  Read document d =
      (m : List (Cbor × Cbor)) × (is : Cbor) × (ism : List (Cbor × Cbor)) × (ns : Cbor)
      × (nsm : List (Cbor × Cbor)) × (as_cbor_map (unwrap_cbor_tags document) ≡ some m)
      × (cbor_map_get m "issuerSigned" ≡ some is)
      × (as_cbor_map (unwrap_cbor_tags is) ≡ some ism)
      × (cbor_map_get ism "nameSpaces" ≡ some ns)
      × (as_cbor_map (unwrap_cbor_tags ns) ≡ some nsm)
      × (d.namespaces ≡ collect_namespaces x nsm [])

  parse_document-Read :
      (document : Cbor) (d : DecodedMdoc) → parse_document x document ≡ ok d → Read document d
  unfolding parse_document
  parse_document-Read document d h =
      let (m, e1, h1) = >>=-passed (need (as_cbor_map (unwrap_cbor_tags document)) _) _ h in
      let (dt, e2, h2) = >>=-passed (need (cbor_map_get_text m "docType") _) _ h1 in
      let (is, e3, h3) = >>=-passed (need (cbor_map_get m "issuerSigned") _) _ h2 in
      let (ism, e4, h4) = >>=-passed (need (as_cbor_map (unwrap_cbor_tags is)) _) _ h3 in
      let (ns, e5, h5) = >>=-passed (need (cbor_map_get ism "nameSpaces") _) _ h4 in
      let (nsm, e6, h6) = >>=-passed (need (as_cbor_map (unwrap_cbor_tags ns)) _) _ h5 in
      (
        m,
        is,
        ism,
        ns,
        nsm,
        ok_or-eq-ok _ _ e1,
        ok_or-eq-ok _ _ e3,
        ok_or-eq-ok _ _ e4,
        ok_or-eq-ok _ _ e5,
        ok_or-eq-ok _ _ e6,
        ap (λ (v : DecodedMdoc). v.namespaces) (sym (ok-injective h6)),
      )

  -- The decoder and the verifier read the same namespaces.
  same_namespaces :
      (document : Cbor) (request : Request) (cas : List x.Cert)
      (found : String × ParsedMobileSecurityObject × Bool) (d : DecodedMdoc)
      → Read document d
      → (p : Passed x document request cas found)
      → d.namespaces ≡ collect_namespaces x p.name_spaces_map []
  same_namespaces document request cas found d (m, is, ism, ns, nsm, a, b, c, e, f, g) p =
      let m1 : m ≡ p.document_map = some-injective (sym a ∙ as_cbor_map-unwrap document p.is_map) in
      let m2 : is ≡ p.issuer_signed =
        some-injective (sym b ∙ ap (λ t. cbor_map_get t "issuerSigned") m1 ∙ p.has_issuer_signed) in
      let m3 : ism ≡ p.issuer_signed_map =
        some-injective
          (sym c ∙ ap (λ t. as_cbor_map (unwrap_cbor_tags t)) m2 ∙ p.issuer_signed_is_map) in
      let m4 : ns ≡ p.name_spaces =
        some-injective (sym e ∙ ap (λ t. cbor_map_get t "nameSpaces") m3 ∙ p.has_name_spaces) in
      let m5 : nsm ≡ p.name_spaces_map =
        some-injective
          (sym f ∙ ap (λ t. as_cbor_map (unwrap_cbor_tags t)) m4 ∙ p.name_spaces_is_map) in
      g ∙ ap (λ t. collect_namespaces x t []) m5

  -- What a successful call has gone through.
  abbrev pub Accepted : ℤ → Request → List x.Cert → DecodedMdoc → MdocVerificationResult → Type 0
  Accepted now request cas d r =
      (document : Cbor) × (found : String × ParsedMobileSecurityObject × Bool) × Read document d
      × (verify_document x document request cas ≡ ok found)
      × (validate_mso_validity x now found.1 ≡ ok r.not_expired)
      × (r.doc_type ≡ found.0)
      × (r.issuer_trusted ≡ found.2)
      × (r.claims ≡ claims_json d.namespaces)

  pub verify_mdoc_presentation-Accepted :
      (now : ℤ) (encoded : String) (request : Request) (cas : List x.Cert)
      (r : MdocVerificationResult)
      → verify_mdoc_presentation x now encoded request cas ≡ ok r
      → (d : DecodedMdoc) × (decode_mdoc_presentation x encoded ≡ ok d)
        × Accepted now request cas d r
  unfolding verify_mdoc_presentation decode_mdoc_presentation
  verify_mdoc_presentation-Accepted now encoded request cas r h =
      let (d, e1, h1) = >>=-passed (map_err _ (decode_mdoc_presentation x encoded)) _ h in
      let (b, e2, h2) = >>=-passed (because _ (decode_base64 x encoded)) _ h1 in
      let (cbor, e3, h3) = >>=-passed (because _ (x.from_reader b)) _ h2 in
      let (document, e4, h4) = >>=-passed (extract_first_document cbor) _ h3 in
      let (found, e5, h5) = >>=-passed (verify_document x document request cas) _ h4 in
      let (ns, e6, h6) =
        >>=-passed (need (opt_map (λ (e : String × Claims). e.0) (first d.namespaces)) _) _ h5 in
      let (fresh, e7, h7) = >>=-passed (validate_mso_validity x now found.1) _ h6 in
      let decoded = map_err-eq-ok _ (decode_mdoc_presentation x encoded) e1 in
      let result = ok-injective h7 in
      let (b2, f2, g2) = >>=-passed (because _ (decode_base64 x encoded)) _ decoded in
      let (cbor2, f3, g3) = >>=-passed (because _ (x.from_reader b2)) _ g2 in
      let (document2, f4, g4) = >>=-passed (extract_document cbor2) _ g3 in
      let same_b : b2 ≡ b = ok-injective (sym (map_err-eq-ok _ _ f2) ∙ map_err-eq-ok _ _ e2) in
      let same_cbor : cbor2 ≡ cbor =
        ok-injective
          (sym (map_err-eq-ok _ _ f3) ∙ ap x.from_reader same_b ∙ map_err-eq-ok _ _ e3) in
      let same_doc : document2 ≡ document =
        same_document cbor document2 document (ap extract_document (sym same_cbor) ∙ f4) e4 in
      (
        d,
        decoded,
        (
          document,
          found,
          subst (λ t. Read t d) same_doc (parse_document-Read document2 d g4),
          e5,
          e7 ∙ ap (λ (v : MdocVerificationResult). ok v.not_expired) result,
          ap (λ (v : MdocVerificationResult). v.doc_type) (sym result),
          ap (λ (v : MdocVerificationResult). v.issuer_trusted) (sym result),
          ap (λ (v : MdocVerificationResult). v.claims) (sym result),
        ),
      )

  -- When a presentation is accepted, every claim that was decoded from it, in any namespace, comes
  -- from an item whose hash is the digest for that namespace in one mobile security object, and the
  -- object is signed by the key of a certificate that, if the result says that the issuer is trusted,
  -- chains to a trusted one; the claims of the result are the decoded ones.
  pub verify_mdoc_presentation-Attested :
      (now : ℤ) (encoded : String) (request : Request) (cas : List x.Cert)
      (r : MdocVerificationResult) (d : DecodedMdoc) (ns : String) (claims : Claims)
      (c : String × Json)
      → verify_mdoc_presentation x now encoded request cas ≡ ok r
      → decode_mdoc_presentation x encoded ≡ ok d
      → Memᴰ (ns, claims) d.namespaces
      → Memᴰ c claims
      → (mso : ParsedMobileSecurityObject) × (expected : Digests) × (item : Cbor) × SignedByIssuer x
          cas mso r.issuer_trusted
        × (mso.doc_type ≡ r.doc_type)
        × (map_get str_compare ns mso.value_digests ≡ some expected)
        × Attested x mso.digest_algorithm expected item
        × (parse_issuer_signed_item x item ≡ ok c)
        × (r.claims ≡ claims_json d.namespaces)
  verify_mdoc_presentation-Attested now encoded request cas r d ns claims c accepted decoded in_ns
        in_claims =
      let (
        d2,
        decoded2,
        (document, found, read, verified, valid, same_type, trusted, same_claims),
      ) =
        verify_mdoc_presentation-Accepted now encoded request cas r accepted in
      let same : d2 ≡ d = ok-injective (sym decoded2 ∙ decoded) in
      let p = verify_document-Passed x document request cas found verified in
      let namespaces = same_namespaces document request cas found d2 read p in
      let (v, items, item, m1, is_array, m2, parsed) =
        collect_namespaces-item x p.name_spaces_map ns claims c
          (subst (λ (t : List (String × Claims)). Memᴰ (ns, claims) t)
            (ap (λ (t : DecodedMdoc). t.namespaces) (sym same) ∙ namespaces) in_ns)
          in_claims in
      let (expected, has_digests, attested) =
        verify_issuer_signed_item_digests-Attested x p.name_spaces_map found.1 ns v items item
          p.digests m1 is_array m2 in
      (
        found.1,
        expected,
        item,
        subst (λ t. SignedByIssuer x cas found.1 t) (sym trusted)
            (verify_issuer_auth-SignedByIssuer x p.issuer_signed_map cas found.1 found.2 p.issuer),
        p.same_type ∙ sym same_type,
        has_digests,
        attested,
        parsed,
        same_claims ∙ ap (λ (t : DecodedMdoc). claims_json t.namespaces) same,
      )
