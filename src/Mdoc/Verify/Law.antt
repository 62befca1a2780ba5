-- ===== src/Mdoc/Verify/Law.antt =====
-- What an accepted mdoc presentation has been checked for.
pub mod Items
pub mod Holder
use mathlib.Core.Path.{subst}
use ewqwe_identity.Prelude.{
  String, ◌≡◌, refl, sym, ap, ◌∙◌, Bool, true, str_eq, str_eq-true, Option, some, none, List, [],
  ◌∷◌, opt_map, first,
}
use ewqwe_identity.Prelude.Int.{ℤ}
use ewqwe_identity.Prelude.Result.{
  Result, ok, err, ◌>>=◌, ◌>>◌, >>=-passed, ok_or-eq-ok, ok-injective, map_err, map_err-eq-ok,
}
use ewqwe_identity.Cbor.{Cbor, unwrap_cbor_tags, as_cbor_map, cbor_map_get, cbor_map_get_text}
use ewqwe_identity.Credential.{need, because, invalid_presentation}
use ewqwe_identity.Mdoc.{Externals, Bytes, CoseSign1}
use ewqwe_identity.Mdoc.Decode.{DecodedMdoc, Claims, decode_base64, decode_mdoc_presentation}
use ewqwe_identity.Mdoc.Cose.{
  must, parse_cose_sign1_from_value, extract_x5chain_from_cose, load_intermediates,
  verify_cose_certificate_chain, verify_cose_sign1_embedded,
}
use ewqwe_identity.Mdoc.Mso.{
  ParsedMobileSecurityObject, map_within, parse_mobile_security_object,
  verify_issuer_signed_item_digests, validate_mso_validity,
}
use ewqwe_identity.Mdoc.Mso.Law.{must-true, map_within-some}
use ewqwe_identity.Mdoc.Verify.{
  MdocVerificationResult, Request, extract_first_document, get_or_missing, claims_json,
  verify_issuer_auth, verify_device_auth, verify_document, verify_mdoc_presentation,
}

pub get_or_missing-some :
    (m : List (Cbor × Cbor)) (key what : String) {v : Cbor}
    → get_or_missing m key what ≡ ok v
    → cbor_map_get m key ≡ some v
unfolding get_or_missing
get_or_missing-some m key what h = ok_or-eq-ok (cbor_map_get m key) (invalid_presentation what) h

module _ (x : Externals) where
  -- The parts of a document that has passed, with what has been checked of each.
  pub record Passed (document : Cbor) (request : Request) (cas : List x.Cert)
      (found : String × ParsedMobileSecurityObject × Bool) : Type 0 where
    pub document_map : List (Cbor × Cbor)
    pub issuer_signed : Cbor
    pub issuer_signed_map : List (Cbor × Cbor)
    pub name_spaces : Cbor
    pub name_spaces_map : List (Cbor × Cbor)
    pub is_map : as_cbor_map document ≡ some document_map
    pub has_issuer_signed : cbor_map_get document_map "issuerSigned" ≡ some issuer_signed
    pub issuer_signed_is_map : as_cbor_map (unwrap_cbor_tags issuer_signed) ≡ some issuer_signed_map
    pub has_name_spaces : cbor_map_get issuer_signed_map "nameSpaces" ≡ some name_spaces
    pub name_spaces_is_map : as_cbor_map (unwrap_cbor_tags name_spaces) ≡ some name_spaces_map
    pub issuer : verify_issuer_auth x issuer_signed_map cas ≡ ok (found.1, found.2)
    pub same_type : found.1.doc_type ≡ found.0
    pub digests : verify_issuer_signed_item_digests x name_spaces_map found.1 ≡ ok tt
    pub device : verify_device_auth x document_map found.0 found.1 request ≡ ok tt

  pub verify_document-Passed :
      (document : Cbor) (request : Request) (cas : List x.Cert)
      (found : String × ParsedMobileSecurityObject × Bool)
      → verify_document x document request cas ≡ ok found
      → Passed document request cas found
  unfolding verify_document
  verify_document-Passed document request cas found h =
      let (dm, e1, h1) = >>=-passed (need (as_cbor_map document) _) _ h in
      let (dt, e2, h2) = >>=-passed (need (cbor_map_get_text dm "docType") _) _ h1 in
      let (is, e3, h3) = >>=-passed (get_or_missing dm "issuerSigned" _) _ h2 in
      let (ism, e4, h4) = >>=-passed (map_within is _) _ h3 in
      let (ns, e5, h5) = >>=-passed (get_or_missing ism "nameSpaces" _) _ h4 in
      let (nsm, e6, h6) = >>=-passed (map_within ns _) _ h5 in
      let (issuer, e7, h7) = >>=-passed (verify_issuer_auth x ism cas) _ h6 in
      let (u, e8, h8) = >>=-passed (must (str_eq issuer.0.doc_type dt) _) _ h7 in
      let (v, e9, h9) = >>=-passed (verify_issuer_signed_item_digests x nsm issuer.0) _ h8 in
      let (w, e10, h10) = >>=-passed (verify_device_auth x dm dt issuer.0 request) _ h9 in
      subst (Passed document request cas) (ok-injective h10) (record {
        document_map = dm;
        issuer_signed = is;
        issuer_signed_map = ism;
        name_spaces = ns;
        name_spaces_map = nsm;
        is_map = ok_or-eq-ok _ _ e1;
        has_issuer_signed = get_or_missing-some dm "issuerSigned" "mDoc missing issuerSigned" e3;
        issuer_signed_is_map = map_within-some is "issuerSigned is not a CBOR map" e4;
        has_name_spaces = get_or_missing-some ism "nameSpaces" "issuerSigned missing nameSpaces" e5;
        name_spaces_is_map = map_within-some ns "issuerSigned.nameSpaces is not a map" e6;
        issuer = e7;
        same_type = str_eq-true _ _ (must-true (str_eq issuer.0.doc_type dt) _ e8);
        digests = e9;
        device = e10;
      })

  -- The object is the payload of a COSE_Sign1 that the key of its first certificate verifies, and
  -- the flag is whether that certificate chains to a trusted one.
  abbrev pub SignedByIssuer : List x.Cert → ParsedMobileSecurityObject → Bool → Type 0
  SignedByIssuer cas mso trusted =
      (auth : CoseSign1) × (der : Bytes) × (rest : List Bytes) × (leaf : x.Cert)
      × (intermediates : List x.Cert) × (key : x.PublicKey) × (payload : Bytes)
      × (extract_x5chain_from_cose auth ≡ ok (der ∷ rest))
      × (x.from_der der ≡ ok leaf)
      × (load_intermediates x rest ≡ ok intermediates)
      × (x.public_key leaf ≡ ok key)
      × (verify_cose_sign1_embedded x auth key ≡ ok tt)
      × (auth.payload ≡ some payload)
      × (parse_mobile_security_object x payload ≡ ok mso)
      × (x.verify_cert cas leaf intermediates ≡ trusted)

  -- What a chain that is accepted consists of.
  chain-parts :
      (chain : List Bytes) (cas : List x.Cert) {found : x.PublicKey × Bool}
      → verify_cose_certificate_chain x chain cas ≡ ok found
      → (der : Bytes) × (rest : List Bytes) × (leaf : x.Cert) × (intermediates : List x.Cert)
        × (chain ≡ der ∷ rest)
        × (x.from_der der ≡ ok leaf)
        × (load_intermediates x rest ≡ ok intermediates)
        × (x.public_key leaf ≡ ok found.0)
        × (x.verify_cert cas leaf intermediates ≡ found.1)
  unfolding verify_cose_certificate_chain
  chain-parts [] cas h = cc h
  chain-parts (der ∷ rest) cas h =
      let (leaf, e1, h1) = >>=-passed (because _ (x.from_der der)) _ h in
      let (ints, e2, h2) = >>=-passed (load_intermediates x rest) _ h1 in
      let (key, e3, h3) = >>=-passed (because _ (x.public_key leaf)) _ h2 in
      let pair = ok-injective h3 in
      (
        der,
        rest,
        leaf,
        ints,
        refl,
        map_err-eq-ok _ _ e1,
        e2,
        map_err-eq-ok _ _ e3 ∙ ap (λ (p : x.PublicKey × Bool). ok p.0) pair,
        ap (λ (p : x.PublicKey × Bool). p.1) pair,
      )

  pub verify_issuer_auth-SignedByIssuer :
      (m : List (Cbor × Cbor)) (cas : List x.Cert) (mso : ParsedMobileSecurityObject)
      (trusted : Bool)
      → verify_issuer_auth x m cas ≡ ok (mso, trusted)
      → SignedByIssuer cas mso trusted
  unfolding verify_issuer_auth
  verify_issuer_auth-SignedByIssuer m cas mso trusted h =
      let (value, e1, h1) = >>=-passed (get_or_missing m "issuerAuth" _) _ h in
      let (auth, e2, h2) = >>=-passed (parse_cose_sign1_from_value x value) _ h1 in
      let (chain, e3, h3) = >>=-passed (extract_x5chain_from_cose auth) _ h2 in
      let (found, e4, h4) = >>=-passed (verify_cose_certificate_chain x chain cas) _ h3 in
      let (u, e5, h5) = >>=-passed (verify_cose_sign1_embedded x auth found.0) _ h4 in
      let (payload, e6, h6) = >>=-passed (need auth.payload _) _ h5 in
      let (object, e7, h7) = >>=-passed (parse_mobile_security_object x payload) _ h6 in
      let pair = ok-injective h7 in
      let (der, rest, leaf, ints, c1, c2, c3, c4, c5) = chain-parts chain cas e4 in
      (
        auth,
        der,
        rest,
        leaf,
        ints,
        found.0,
        payload,
        e3 ∙ ap ok c1,
        c2,
        c3,
        c4,
        e5,
        ok_or-eq-ok _ _ e6,
        e7 ∙ ap (λ (p : ParsedMobileSecurityObject × Bool). ok p.0) pair,
        c5 ∙ ap (λ (p : ParsedMobileSecurityObject × Bool). p.1) pair,
      )
