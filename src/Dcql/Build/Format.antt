-- ===== src/Dcql/Build/Format.antt =====
-- Which format the built queries ask for.
use mathlib.Core.Path.{subst}
use ewqwe_identity.Prelude.{
  String, ◌≡◌, refl, List, [], ◌∷◌, All, Bool-cases, Option-cases, inl, inr, str_eq, ◌||◌,
}
use ewqwe_identity.Prelude.Sets.{In}
use ewqwe_identity.Types.{DcqlCredentialQuery}
use ewqwe_identity.Config.{get_credential_type}
use ewqwe_identity.Config.Law.{known_keys, known_key}
use ewqwe_identity.Dcql.Build.{
  format_for, build_default_dcql_for_credential_type, build_dcql_for_credential_type_with_claims,
}

abbrev AsksMdoc : DcqlCredentialQuery → Type 0
AsksMdoc c = c.format ≡ "mso_mdoc"

default_AsksMdoc :
    (t : String) → All AsksMdoc (build_default_dcql_for_credential_type t).credentials
unfolding build_default_dcql_for_credential_type
default_AsksMdoc t = elim (Bool-cases (str_eq t "proof-of-age" || str_eq t "proof_of_age")) [
  | inl e ↦ rw e (refl, tt)
  | inr e ↦
      rw e
        (elim (Bool-cases (str_eq t "mdl")) [ inl d ↦ rw d (refl, tt) | inr d ↦ rw d (refl, tt) ])
]

abbrev IsMdocKey : String → Type 0
IsMdocKey k = format_for k ≡ "mso_mdoc"

known_key-format : (t : String) → In t known_keys → IsMdocKey t
unfolding format_for
known_key-format t (inl e) = subst IsMdocKey e refl
known_key-format t (inr (inl e)) = subst IsMdocKey e refl
known_key-format t (inr (inr (inl e))) = subst IsMdocKey e refl
known_key-format t (inr (inr (inr (inl e)))) = subst IsMdocKey e refl
known_key-format t (inr (inr (inr (inr (inl e))))) = subst IsMdocKey e refl
known_key-format t (inr (inr (inr (inr (inr (inl e)))))) = subst IsMdocKey e refl
known_key-format t (inr (inr (inr (inr (inr (inr (inl e))))))) = subst IsMdocKey e refl
known_key-format t (inr (inr (inr (inr (inr (inr (inr e))))))) = absurd e

-- No credential type and no list of claims gives a query for an SD-JWT credential: the builder asks
-- for the format "mso_mdoc" always.
pub build_with_claims-asks_mdoc :
    (credential_type : String) (claims : List String)
    → All
        (λ c. c.format ≡ "mso_mdoc")
        (build_dcql_for_credential_type_with_claims credential_type claims).credentials
unfolding build_dcql_for_credential_type_with_claims
build_with_claims-asks_mdoc t [] = default_AsksMdoc t
build_with_claims-asks_mdoc t (c ∷ cs) = elim (Option-cases (get_credential_type t)) [
  | inl e ↦ rw e (default_AsksMdoc t)
  | inr (config, e) ↦ rw e (known_key-format t (known_key t config e), tt)
]
