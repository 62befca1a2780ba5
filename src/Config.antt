-- ===== src/Config.antt =====
-- crates/ewqwe-openid4vp/src/config.rs: profiles, and the choice of one.
mod CredentialTypes
pub mod Law
mod Tests
unfoldable pub use CredentialTypes.{get_credential_type}
pub use CredentialTypes.{
  credential_type_mdl, credential_type_pid, credential_type_proof_of_age,
  credential_type_france_identite,
}
use ewqwe_identity.Prelude.{
  ℕ, zero, suc, String, Bool, true, false, ◌||◌, Option, none, some, List, [], ◌∷◌, map, str_eq,
  if◌then◌else◌,
}
use ewqwe_identity.Types.{
  ProfileId, haip, haip_x509_san_dns, annex_a, ClientIdScheme, ResponseMode, direct_post,
  direct_post_jwt, ProtocolProfile, CredentialTypeConfig, ClaimDefinition,
}

abbrev pub profile_haip : ProtocolProfile
profile_haip = record {
  id = haip;
  name = "HAIP";
  description = "High Assurance Interoperability Profile for EUDI Wallets";
  client_id_scheme = ClientIdScheme.x509_hash;
  response_mode = direct_post_jwt;
  url_schemes = "eudi-openid4vp://" ∷ "openid4vp://" ∷ [];
  requires_jar_signing = true;
}

abbrev pub profile_haip_x509_san_dns : ProtocolProfile
profile_haip_x509_san_dns = record {
  id = haip_x509_san_dns;
  name = "HAIP (x509_san_dns)";
  description = "HAIP with x509_san_dns client_id scheme";
  client_id_scheme = ClientIdScheme.x509_san_dns;
  response_mode = direct_post_jwt;
  url_schemes = "eudi-openid4vp://" ∷ "openid4vp://" ∷ [];
  requires_jar_signing = true;
}

abbrev pub profile_annex_a : ProtocolProfile
profile_annex_a = record {
  id = annex_a;
  name = "Annex A";
  description = "EU Age Verification Profile for age verification apps";
  client_id_scheme = ClientIdScheme.redirect_uri;
  response_mode = direct_post;
  url_schemes = "av://" ∷ [];
  requires_jar_signing = false;
}

unfoldable pub get_profile : ProfileId → ProtocolProfile
get_profile haip = profile_haip
get_profile haip_x509_san_dns = profile_haip_x509_san_dns
get_profile annex_a = profile_annex_a

-- `Some("proof-of-age") | Some("proof_of_age")` picks Annex A, anything else HAIP.
profile_for : Option String → ProfileId
profile_for none = haip
profile_for (some t) = if str_eq t "proof-of-age" || str_eq t "proof_of_age" then annex_a else haip

unfoldable pub determine_profile : Option String → Option ProfileId → ProfileId
unfolding profile_for
determine_profile credential_type (some profile) = profile
determine_profile credential_type none = profile_for credential_type

unfoldable pub profile_requires_jar : ProfileId → Bool
profile_requires_jar haip = true
profile_requires_jar haip_x509_san_dns = true
profile_requires_jar annex_a = false

-- `iter().take(n)`
take : {A : Type 0} → ℕ → List A → List A
take zero xs = []
take (suc n) [] = []
take (suc n) (x ∷ xs) = x ∷ take n xs

default_claims_of : Option CredentialTypeConfig → List String
unfolding take
default_claims_of none = []
default_claims_of (some ct) = map (λ (c : ClaimDefinition). c.id) (take 5 ct.claims)

unfoldable pub get_default_claims : String → List String
unfolding default_claims_of get_credential_type
get_default_claims credential_type = default_claims_of (get_credential_type credential_type)
