-- ===== src/Vp/Law.antt =====
-- When a presentation counts as valid.
use ewqwe_identity.Prelude.{
  String, ◌≡◌, ◌↔◌, ◌⊎◌, refl, sym, ap, ◌∙◌, inl, inr, Bool, true, false, ◌&&◌, str_eq, str_eq-true,
  str_eq-false, ◌<>◌, eq_iff, Option, none, some, is_some, opt_map, Option-cases, Bool-cases,
  false≢true,
}
use ewqwe_identity.Prelude.Int.{ℤ, ltb_ℤ}
use ewqwe_identity.Prelude.Result.{
  ok, err, map_err, ok_or, >>=-passed, ok_or-eq-ok, ok-injective, map_err-eq-ok,
}
use ewqwe_identity.Types.{bad_request, decoding_error}
use ewqwe_identity.Store.Spec.{Tx}
use ewqwe_identity.SdJwt.{SigVerificationResult, skipped_result}
use ewqwe_identity.Vp.{
  VpToken, MdocResult, Checks, Verified, expiry_check, issuer_check, nonce_check, signature_check,
  verify_vp_token, judge_mdoc, judge_other, judge, check_client, verify_vp_token_against_cas,
  is_encrypted,
}

-- There is no expiry, it cannot be read, or it is not before the clock.
abbrev pub NotExpired : (String → Option ℤ) → ℤ → Option String → Type 0
NotExpired parse now none = Unit
NotExpired parse now (some text) =
    (parse text ≡ none) ⊎ ((exp : ℤ) × (parse text ≡ some exp) × (ltb_ℤ exp now ≡ false))

-- A presentation that carries a nonce carries that of the transaction.
abbrev pub NonceAgrees : Option String → Option String → Type 0
NonceAgrees (some req) (some token) = req ≡ token
NonceAgrees _ _ = Unit

-- With signatures, all hold and the issuer is trusted; without, there is some issuer.
abbrev pub IsSigned : SigVerificationResult → Option String → Type 0
IsSigned sig issuer =
    ((sig.skipped ≡ true) × (is_some issuer ≡ true))
    ⊎ ((sig.skipped ≡ false)
        × (sig.issuer_sig_valid ≡ true)
        × (sig.kb_sig_valid ≡ true)
        × (sig.issuer_trusted ≡ true))

both : (a b : Bool) → (a && b ≡ true) ↔ ((a ≡ true) × (b ≡ true))
both true b = (λ h. (refl, h), λ (p, q). q)
both false b = (λ h. cc h, λ (p, q). p)

expiry-NotExpired :
    (parse : String → Option ℤ) (now : ℤ) (e : Option String)
    → ((expiry_check parse now e).0 ≡ true) ↔ NotExpired parse now e
unfolding expiry_check
expiry-NotExpired parse now none = (λ h. tt, λ h. refl)
expiry-NotExpired parse now (some text) = elim (Option-cases (parse text)) [
  | inl e ↦ (λ h. inl e, λ h. rw (e, expiry_check) refl)
  | inr (z, e) ↦ elim (Bool-cases (ltb_ℤ z now)) [
    | inl late ↦ (
      λ h. absurd (false≢true (rw (e, late, expiry_check) at h)),
      elim [ inl gone ↦ cc (e, gone) | inr (y, same, early) ↦ cc (e, same, early, late) ],
    )
    | inr early ↦ (λ h. inr (z, e, early), λ h. rw (e, early, expiry_check) refl)
  ]
]

nonce-NonceAgrees : (a b : Option String) → ((nonce_check a b).0 ≡ true) ↔ NonceAgrees a b
unfolding nonce_check
nonce-NonceAgrees (some a) (some b) = elim (Bool-cases (str_eq a b)) [
  | inl e ↦ (λ h. str_eq-true a b e, λ p. rw (e, nonce_check) refl)
  | inr e ↦ (
    λ h. absurd (false≢true (rw (e, nonce_check) at h)),
    λ p. absurd (false≢true (sym e ∙ (eq_iff a b).1 p)),
  )
]
nonce-NonceAgrees (some a) none = (λ h. tt, λ h. refl)
nonce-NonceAgrees none (some b) = (λ h. tt, λ h. refl)
nonce-NonceAgrees none none = (λ h. tt, λ h. refl)

both_checks-IsSigned :
    (sig : SigVerificationResult) (issuer : Option String)
    → (((signature_check sig).0 ≡ true) × ((issuer_check sig issuer).0 ≡ true))
      ↔ IsSigned sig issuer
unfolding signature_check issuer_check
both_checks-IsSigned sig issuer = elim (Bool-cases sig.skipped) [
  | inl s ↦ rw s (
    λ (p, q). inl (refl, q),
    elim [ inl (r, q) ↦ (refl, q) | inr (r, a, b, q) ↦ absurd (false≢true (sym r)) ],
  )
  | inr s ↦ rw s (
    λ (p, q). let (a, b) = (both sig.issuer_sig_valid sig.kb_sig_valid).0 p in inr (refl, a, b, q),
    elim [
      | inl (r, q) ↦ absurd (false≢true r)
      | inr (r, a, b, q) ↦ ((both sig.issuer_sig_valid sig.kb_sig_valid).1 (a, b), q)
    ],
  )
]

-- A token is valid exactly when it is signed as `IsSigned` says, has not expired, and any nonce that
-- it carries is that of the transaction, if there is one.
pub verify_vp_token-valid_iff :
    (parse : String → Option ℤ) (now : ℤ) (tok : VpToken) (server : Option String)
    (sig : SigVerificationResult)
    → ((verify_vp_token parse now tok server sig).is_valid ≡ true) ↔ (
        IsSigned sig tok.issuer
        × NotExpired parse now tok.expires_at
        × NonceAgrees server tok.nonce)
unfolding verify_vp_token
verify_vp_token-valid_iff parse now tok server sig =
    let g = (signature_check sig).0 in
    let e = (expiry_check parse now tok.expires_at).0 in
    let i = (issuer_check sig tok.issuer).0 in
    let n = (nonce_check server tok.nonce).0 in
    let outer = both (g && e && i) n in
    let middle = both (g && e) i in
    let inner = both g e in
    let (toS, fromS) = both_checks-IsSigned sig tok.issuer in
    let (toE, fromE) = expiry-NotExpired parse now tok.expires_at in
    let (toN, fromN) = nonce-NonceAgrees server tok.nonce in
    (
      λ h.
          let (gei, nv) = outer.0 h in
          let (ge, iv) = middle.0 gei in
          let (gv, ev) = inner.0 ge in (toS (gv, iv), toE ev, toN nv),
      λ (s, x, y).
          let (gv, iv) = fromS s in outer.1 (middle.1 (inner.1 (gv, fromE x), iv), fromN y),
    )

pub any_client : (transaction : Option Tx) → check_client transaction none ≡ ok tt
unfolding check_client
any_client none = refl
any_client (some tx) = refl

own_client :
    (transaction : Option Tx) (client : Option String)
    → ((tx : Tx) (c : String) → transaction ≡ some tx → client ≡ some c → tx.client_id ≡ c)
    → check_client transaction client ≡ ok tt
unfolding check_client
own_client none client own = refl
own_client (some tx) none own = refl
own_client (some tx) (some c) own = rw ((eq_iff tx.client_id c).1 (own tx c refl refl)) refl

pub no_nonce : (server : Option String) → NonceAgrees server none
no_nonce none = tt
no_nonce (some a) = tt

module _ (x : Checks) where
  judge_mdoc-ok :
      (m : MdocResult) (id : Option String) (v : Verified)
      → judge_mdoc x m id ≡ ok v
      → (m.not_expired ≡ true) × (m.issuer_trusted ≡ true) × (v.claims ≡ m.claims)
  unfolding judge_mdoc
  judge_mdoc-ok m id v h = elim (Bool-cases m.not_expired) [
    | inl e ↦ elim (Bool-cases m.issuer_trusted) [
      | inl t ↦
          (e, t, ap (λ (w : Verified). w.claims) (sym (ok-injective (rw (e, t, judge_mdoc) at h))))
      | inr t ↦ cc (rw (e, t, judge_mdoc) at h)
    ]
    | inr e ↦ cc (rw (e, judge_mdoc) at h)
  ]

  -- A token that is neither SD-JWT nor mdoc is not checked for any signature: when the call names no
  -- client or the transaction's own, it is accepted as valid if it names some issuer and carries
  -- neither an expiry nor a nonce, whatever its claims are.
  pub verify_vp_token_against_cas-unsigned :
      (text : String) (transaction : Option Tx) (client : Option String) (tok : VpToken)
      (id : Option String) (issuer : String)
      → ((tx : Tx) (c : String) → transaction ≡ some tx → client ≡ some c → tx.client_id ≡ c)
      → x.parse_vp_token text ≡ ok (tok, id)
      → tok.raw_mdoc ≡ none
      → tok.raw_sd_jwt ≡ none
      → tok.issuer ≡ some issuer
      → tok.expires_at ≡ none
      → tok.nonce ≡ none
      → (v : Verified) × (verify_vp_token_against_cas x text transaction client ≡ ok v)
        × (v.result.is_valid ≡ true)
  unfolding verify_vp_token_against_cas judge skipped_result judge_other
  verify_vp_token_against_cas-unsigned text transaction client tok id issuer own parsed m s i e n =
      let sig = skipped_result "presentation format not recognized" in
      let server = opt_map (λ (tx : Tx). tx.nonce) transaction in
      (
        judge_other x transaction tok id sig,
        rw (own_client transaction client own, parsed, m, s) refl,
        (verify_vp_token-valid_iff x.parse_rfc3339 x.now tok server sig).1
            (inl (refl, rw i refl), rw e tt, rw n (no_nonce server)),
      )

  -- A call whose `client_id` is not that of the transaction is refused before the token is looked at.
  pub verify_vp_token_against_cas-other_client :
      (text client : String) (tx : Tx)
      → ¬ (tx.client_id ≡ client)
      → verify_vp_token_against_cas x text (some tx) (some client)
        ≡ err (bad_request "client_id does not match the transaction-bound request")
  unfolding verify_vp_token_against_cas check_client
  verify_vp_token_against_cas-other_client text client tx other =
      rw (str_eq-false tx.client_id client other) refl

  -- An mdoc is accepted only for a known transaction, after the check of the mdoc against that
  -- transaction's client, nonce, response URI and mode succeeded, found it in force, and found its
  -- issuer trusted; the claims are those that the check returned.
  pub verify_vp_token_against_cas-mdoc :
      (text raw : String) (transaction : Option Tx) (client : Option String) (tok : VpToken)
      (id : Option String) (v : Verified)
      → x.parse_vp_token text ≡ ok (tok, id)
      → tok.raw_mdoc ≡ some raw
      → verify_vp_token_against_cas x text transaction client ≡ ok v
      → (tx : Tx) × (m : MdocResult) × (transaction ≡ some tx)
        × (x.verify_mdoc raw tx.client_id tx.nonce tx.response_uri (is_encrypted tx.response_mode)
            ≡ ok m)
        × (m.not_expired ≡ true)
        × (m.issuer_trusted ≡ true)
        × (v.claims ≡ m.claims)
  unfolding verify_vp_token_against_cas judge
  verify_vp_token_against_cas-mdoc text raw transaction client tok id v parsed is_mdoc h =
      let (u, ec, h1) = >>=-passed (check_client transaction client) _ h in
      let h2 : judge x transaction tok id (some raw) tok.raw_sd_jwt ≡ ok v =
        rw (parsed, is_mdoc) at h1 in
      let (tx, et, h3) = >>=-passed (ok_or transaction _) _ h2 in
      let (m, em, h4) =
        >>=-passed
          (map_err (λ e. decoding_error ("mDoc presentation verification failed: " <> e))
            (x.verify_mdoc raw tx.client_id tx.nonce tx.response_uri
              (is_encrypted tx.response_mode)))
          _ h3 in
      let (a, b, c) = judge_mdoc-ok m id v h4 in
      (tx, m, ok_or-eq-ok transaction _ et, map_err-eq-ok _ _ em, a, b, c)
