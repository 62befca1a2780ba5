-- ===== src/Dcql/Build/Tests.antt =====
-- Runs of the builders.
use ewqwe_identity.Prelude.{◌≡◌, ◌↔◌, refl, some, [], ◌∷◌, All, true}
use ewqwe_identity.Prelude.Sets.{NoDup}
use ewqwe_identity.Prelude.Result.{ok}
use ewqwe_identity.Config.{get_credential_type, credential_type_mdl}
use ewqwe_identity.Dcql.Validity.{is_valid, is_id}
use ewqwe_identity.Dcql.Validity.Ascii.{ascii_alphanumeric}
use ewqwe_identity.Dcql.Build.{
  build_default_dcql_for_credential_type, build_age_verification_query,
  build_age_verification_query_with_fallback, build_dcql_for_credential_type_with_claims,
}
use ewqwe_identity.Dcql.Build.Valid.{built_queries_valid, with_claims-valid_iff}
use ewqwe_identity.Dcql.Build.Format.{build_with_claims-asks_mdoc}

built_queries_valid_example :
    (is_valid ascii_alphanumeric (build_default_dcql_for_credential_type "national-id") ≡ ok tt)
    × (is_valid ascii_alphanumeric (build_age_verification_query (some 21)) ≡ ok tt)
    × (is_valid ascii_alphanumeric (build_age_verification_query_with_fallback (some 21)) ≡ ok tt)
built_queries_valid_example =
    built_queries_valid ascii_alphanumeric (λ c h. h) "national-id" (some 21)

mdl_key : get_credential_type "mdl" ≡ some credential_type_mdl
unfolding get_credential_type
mdl_key = refl

with_claims-valid_iff_example :
    (is_valid ascii_alphanumeric
        (build_dcql_for_credential_type_with_claims "mdl" ("age_over_18" ∷ "family_name" ∷ []))
      ≡ ok tt)
    ↔ (All (λ s. is_id ascii_alphanumeric s ≡ true) ("age_over_18" ∷ "family_name" ∷ [])
        × NoDup ("age_over_18" ∷ "family_name" ∷ []))
with_claims-valid_iff_example =
    with_claims-valid_iff ascii_alphanumeric (λ c h. h) "mdl" "age_over_18" ("family_name" ∷ [])
      mdl_key

build_with_claims-asks_mdoc_example :
    All
      (λ c. c.format ≡ "mso_mdoc")
      (build_dcql_for_credential_type_with_claims "eu.europa.ec.eudi.pid.sd_jwt"
        ("age" ∷ [])).credentials
build_with_claims-asks_mdoc_example =
    build_with_claims-asks_mdoc "eu.europa.ec.eudi.pid.sd_jwt" ("age" ∷ [])
