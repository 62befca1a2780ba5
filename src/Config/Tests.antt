-- ===== src/Config/Tests.antt =====
-- Runs of the choice of a profile.
use ewqwe_identity.Prelude.{◌≡◌, refl, some, none}
use ewqwe_identity.Config.{determine_profile, get_credential_type, credential_type_mdl}
use ewqwe_identity.Config.Law.{determine_profile-get_credential_type}

mdl_key : get_credential_type "mdl" ≡ some credential_type_mdl
unfolding get_credential_type
mdl_key = refl

determine_profile-get_credential_type_example :
    determine_profile (some "mdl") none ≡ credential_type_mdl.profile
determine_profile-get_credential_type_example =
    determine_profile-get_credential_type "mdl" credential_type_mdl mdl_key
