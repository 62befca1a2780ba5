-- ===== src/Dcql/Build/Valid.antt =====
-- When the built queries pass the validation.
use mathlib.Core.Path.{subst}
use ewqwe_identity.Prelude.{
  ℕ, String, ◌≡◌, refl, sym, ◌↔◌, ap, Bool, true, ◌||◌, Option, some, List, [], ◌∷◌, map, All,
  Bool-cases, inl, inr, str_eq,
}
use ewqwe_identity.Prelude.Sets.{In, NoDup}
use ewqwe_identity.Prelude.Result.{ok}
use ewqwe_identity.Types.{CredentialTypeConfig}
use ewqwe_identity.Config.{get_credential_type}
use ewqwe_identity.Config.Law.{known_keys, known_key}
use ewqwe_identity.Dcql.Validity.{is_id, is_valid}
use ewqwe_identity.Dcql.Validity.Spec.{claim_ids}
use ewqwe_identity.Dcql.Validity.Law.{is_valid_iff}
use ewqwe_identity.Dcql.Validity.Ascii.{ascii_alphanumeric, PermitsAscii, is_id_mono, is_valid_mono}
use ewqwe_identity.Dcql.Build.{
  named_claim, format_for, credential_id, build_default_dcql_for_credential_type,
  build_dcql_for_credential_type_with_claims, build_age_verification_query,
  build_age_verification_query_with_fallback,
}

default_valid_ascii :
    (t : String) → is_valid ascii_alphanumeric (build_default_dcql_for_credential_type t) ≡ ok tt
unfolding is_valid build_default_dcql_for_credential_type
default_valid_ascii t = elim (Bool-cases (str_eq t "proof-of-age" || str_eq t "proof_of_age")) [
  | inl e ↦ rw e
  | inr e ↦ rw e (elim (Bool-cases (str_eq t "mdl")) [ inl d ↦ rw d | inr d ↦ rw d ])
]

fallback_valid_ascii :
    (age : Option ℕ)
    → is_valid ascii_alphanumeric (build_age_verification_query_with_fallback age) ≡ ok tt
unfolding is_valid build_age_verification_query_with_fallback
fallback_valid_ascii age = refl

age_valid_ascii :
    (age : Option ℕ) → is_valid ascii_alphanumeric (build_age_verification_query age) ≡ ok tt
unfolding is_valid build_age_verification_query
age_valid_ascii age = refl

claim_ids-named :
    (format namespace : String) (claims : List String)
    → claim_ids (map (named_claim format namespace) claims) ≡ claims
unfolding named_claim
claim_ids-named format namespace [] = refl
claim_ids-named format namespace (c ∷ cs) = ap (λ l. c ∷ l) (claim_ids-named format namespace cs)

abbrev HasIdOk : String → Type 0
HasIdOk k = is_id ascii_alphanumeric (credential_id k) ≡ true

known_key-credential_id : (t : String) → In t known_keys → HasIdOk t
unfolding credential_id is_id
known_key-credential_id t (inl e) = subst HasIdOk e refl
known_key-credential_id t (inr (inl e)) = subst HasIdOk e refl
known_key-credential_id t (inr (inr (inl e))) = subst HasIdOk e refl
known_key-credential_id t (inr (inr (inr (inl e)))) = subst HasIdOk e refl
known_key-credential_id t (inr (inr (inr (inr (inl e))))) = subst HasIdOk e refl
known_key-credential_id t (inr (inr (inr (inr (inr (inl e)))))) = subst HasIdOk e refl
known_key-credential_id t (inr (inr (inr (inr (inr (inr (inl e))))))) = subst HasIdOk e refl
known_key-credential_id t (inr (inr (inr (inr (inr (inr (inr e))))))) = absurd e

module _ (is_alphanumeric : ℕ → Bool) (permits : PermitsAscii is_alphanumeric) where
  -- Where letters and digits of ASCII count as alphanumeric, the default query for any credential
  -- type, the age query and the age query with fallback at any threshold pass the validation.
  pub built_queries_valid :
      (credential_type : String) (age : Option ℕ)
      → (is_valid is_alphanumeric (build_default_dcql_for_credential_type credential_type) ≡ ok tt)
        × (is_valid is_alphanumeric (build_age_verification_query age) ≡ ok tt)
        × (is_valid is_alphanumeric (build_age_verification_query_with_fallback age) ≡ ok tt)
  built_queries_valid t age = (
    is_valid_mono is_alphanumeric permits _ (default_valid_ascii t),
    is_valid_mono is_alphanumeric permits _ (age_valid_ascii age),
    is_valid_mono is_alphanumeric permits _ (fallback_valid_ascii age),
  )

  abbrev IsIdent : String → Type 0
  IsIdent s = is_id is_alphanumeric s ≡ true

  -- Where letters and digits of ASCII count as alphanumeric and the credential type is a key of the
  -- table, the query for a non-empty list of claims passes the validation exactly when the names of
  -- the claims are well-formed ids and no two are equal.
  pub with_claims-valid_iff :
      (t c : String) (cs : List String) {config : CredentialTypeConfig}
      → get_credential_type t ≡ some config
      → (is_valid is_alphanumeric (build_dcql_for_credential_type_with_claims t (c ∷ cs)) ≡ ok tt)
        ↔ (All (λ s. is_id is_alphanumeric s ≡ true) (c ∷ cs) × NoDup (c ∷ cs))
  unfolding build_dcql_for_credential_type_with_claims
  with_claims-valid_iff t c cs {config} known =
      let format = format_for t in
      let e = claim_ids-named format config.namespace (c ∷ cs) in
      rw known (
        λ h.
            let w = ((is_valid_iff is_alphanumeric _).0 h).each_credential.0.claims_ok in
            (subst (All IsIdent) e w.0, subst NoDup e w.1),
        λ h. (is_valid_iff is_alphanumeric _).1 (record {
          some_credential = tt;
          each_credential = (
            record {
              id_ok =
                  is_id_mono is_alphanumeric permits _
                    (known_key-credential_id t (known_key t config known));
              authorities_ok = tt;
              claims_ok = (subst (All IsIdent) (sym e) h.0, subst NoDup (sym e) h.1, tt);
            },
            tt,
          );
          distinct = (λ n. n, tt);
          sets_ok = tt;
        }),
      )
