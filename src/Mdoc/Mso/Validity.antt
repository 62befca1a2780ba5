-- ===== src/Mdoc/Mso/Validity.antt =====
-- When a mobile security object is in force.
use ewqwe_identity.Prelude.{String, ◌≡◌, ◌↔◌, refl, Bool, true, false, not, Option, some, none}
use ewqwe_identity.Prelude.Int.{ℤ, ltb_ℤ}
use ewqwe_identity.Prelude.Result.{ok, >>=-passed, map_err-eq-ok}
use ewqwe_identity.Credential.{because}
use ewqwe_identity.Mdoc.{Externals}
use ewqwe_identity.Mdoc.Cose.{must}
use ewqwe_identity.Mdoc.Mso.{
  ParsedMobileSecurityObject, not_before, not_after, validate_mso_validity,
}
use ewqwe_identity.Mdoc.Mso.Law.{must-true}

not-true : (b : Bool) → not b ≡ true → b ≡ false
not-true true h = cc h
not-true false h = refl

module _ (x : Externals) where
  -- There is no such time, or it can be read and is not after the clock.
  abbrev pub Begun : ℤ → Option String → Type 0
  Begun now none = Unit
  Begun now (some text) = (t : ℤ) × (x.parse_rfc3339 text ≡ ok t) × (ltb_ℤ now t ≡ false)

  abbrev pub NotEnded : ℤ → Option String → Type 0
  NotEnded now none = Unit
  NotEnded now (some text) = (t : ℤ) × (x.parse_rfc3339 text ≡ ok t) × (ltb_ℤ t now ≡ false)

  not_before-Begun : (now : ℤ) (o : Option String) → (not_before x now o ≡ ok tt) ↔ Begun now o
  unfolding not_before must
  not_before-Begun now none = (λ h. tt, λ h. refl)
  not_before-Begun now (some text) = (
    λ h.
        let (t, e, k) = >>=-passed (because _ (x.parse_rfc3339 text)) _ h in
        (t, map_err-eq-ok _ _ e, not-true (ltb_ℤ now t) (must-true (not (ltb_ℤ now t)) _ k)),
    λ (t, e, k). rw (e, k, not_before, must) refl,
  )

  not_after-NotEnded : (now : ℤ) (o : Option String) → (not_after x now o ≡ ok tt) ↔ NotEnded now o
  unfolding not_after must
  not_after-NotEnded now none = (λ h. tt, λ h. refl)
  not_after-NotEnded now (some text) = (
    λ h.
        let (t, e, k) = >>=-passed (because _ (x.parse_rfc3339 text)) _ h in
        (t, map_err-eq-ok _ _ e, not-true (ltb_ℤ t now) (must-true (not (ltb_ℤ t now)) _ k)),
    λ (t, e, k). rw (e, k, not_after, must) refl,
  )

  -- The check of the validity answers true exactly when the validity has begun and has not ended, and
  -- it never answers false: what is not in force is an error.
  pub validate_mso_validity_iff :
      (now : ℤ) (mso : ParsedMobileSecurityObject)
      → ((validate_mso_validity x now mso ≡ ok true)
          ↔ (Begun now mso.valid_from × NotEnded now mso.valid_until))
        × ¬ (validate_mso_validity x now mso ≡ ok false)
  unfolding validate_mso_validity
  validate_mso_validity_iff now mso = (
    (
      λ h.
          let (u, e1, h1) = >>=-passed (not_before x now mso.valid_from) _ h in
          let (v, e2, h2) = >>=-passed (not_after x now mso.valid_until) _ h1 in
          (
            (not_before-Begun now mso.valid_from).0 e1,
            (not_after-NotEnded now mso.valid_until).0 e2,
          ),
      λ (b, e).
          rw
            (
              (not_before-Begun now mso.valid_from).1 b,
              (not_after-NotEnded now mso.valid_until).1 e,
            )
            refl,
    ),
    λ h.
        let (u, e1, h1) = >>=-passed (not_before x now mso.valid_from) _ h in
        let (v, e2, h2) = >>=-passed (not_after x now mso.valid_until) _ h1 in cc h2,
  )
