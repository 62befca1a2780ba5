-- ===== src/Config/Law.antt =====
-- The tables of config.rs agree with one another.
use ewqwe_identity.Prelude.{
  String, ◌≡◌, refl, sym, none, some, List, [], ◌∷◌, str_eq-false, contains, Bool-cases, inl, inr,
}
use mathlib.Core.Path.{subst}
use ewqwe_identity.Prelude.Sets.{In, contains→In, contains-false}
use ewqwe_identity.Types.{ProfileId, CredentialTypeConfig, haip, haip_x509_san_dns, annex_a}
use ewqwe_identity.Config.{
  get_credential_type, determine_profile, profile_requires_jar, get_profile,
}

abbrev pub known_keys : List String
known_keys =
    "mdl" ∷ "national-id" ∷ "national_id" ∷ "pid" ∷ "proof-of-age" ∷ "proof_of_age"
    ∷ "france-identite-numerique" ∷ []

unknown_key : (key : String) → ¬ In key known_keys → get_credential_type key ≡ none
unfolding get_credential_type
unknown_key key apart = rw (
  str_eq-false key "mdl" (λ e. apart (inl (sym e))),
  str_eq-false key "national-id" (λ e. apart (inr (inl (sym e)))),
  str_eq-false key "national_id" (λ e. apart (inr (inr (inl (sym e))))),
  str_eq-false key "pid" (λ e. apart (inr (inr (inr (inl (sym e)))))),
  str_eq-false key "proof-of-age" (λ e. apart (inr (inr (inr (inr (inl (sym e))))))),
  str_eq-false key "proof_of_age" (λ e. apart (inr (inr (inr (inr (inr (inl (sym e)))))))),
  str_eq-false key "france-identite-numerique"
      (λ e. apart (inr (inr (inr (inr (inr (inr (inl (sym e))))))))),
)

pub known_key :
    (key : String) (c : CredentialTypeConfig) → get_credential_type key ≡ some c → In key known_keys
known_key key c h = elim (Bool-cases (contains known_keys key)) [
  | inl e ↦ contains→In known_keys key e
  | inr e ↦ cc (unknown_key key ((contains-false known_keys key).0 e))
]

-- The statement of the theorem below, at a key.
abbrev Agrees : CredentialTypeConfig → String → Type 0
Agrees c key = get_credential_type key ≡ some c → determine_profile (some key) none ≡ c.profile

Agrees-at : (key : String) (c : CredentialTypeConfig) → In key known_keys → Agrees c key
unfolding get_credential_type determine_profile
Agrees-at key c (inl e) = subst (Agrees c) e (λ h. cc)
Agrees-at key c (inr (inl e)) = subst (Agrees c) e (λ h. cc)
Agrees-at key c (inr (inr (inl e))) = subst (Agrees c) e (λ h. cc)
Agrees-at key c (inr (inr (inr (inl e)))) = subst (Agrees c) e (λ h. cc)
Agrees-at key c (inr (inr (inr (inr (inl e))))) = subst (Agrees c) e (λ h. cc)
Agrees-at key c (inr (inr (inr (inr (inr (inl e)))))) = subst (Agrees c) e (λ h. cc)
Agrees-at key c (inr (inr (inr (inr (inr (inr (inl e))))))) = subst (Agrees c) e (λ h. cc)
Agrees-at key c (inr (inr (inr (inr (inr (inr (inr e))))))) = absurd e

-- For every key of the table of credential types, the profile that is chosen for the key when the
-- request names none is the profile of the key's entry.
pub determine_profile-get_credential_type :
    (key : String) (c : CredentialTypeConfig)
    → get_credential_type key ≡ some c
    → determine_profile (some key) none ≡ c.profile
determine_profile-get_credential_type key c h = Agrees-at key c (known_key key c h) h

-- The entry of a profile carries its id, and wants a signed request exactly as
-- `profile_requires_jar` says.
pub get_profile_coherent :
    (p : ProfileId)
    → ((get_profile p).id ≡ p) × ((get_profile p).requires_jar_signing ≡ profile_requires_jar p)
unfolding get_profile profile_requires_jar
get_profile_coherent haip = (refl, refl)
get_profile_coherent haip_x509_san_dns = (refl, refl)
get_profile_coherent annex_a = (refl, refl)
