-- ===== src/Config/CredentialTypes.antt =====
-- crates/ewqwe-openid4vp/src/config.rs: the tables of claims and of credential types.
use ewqwe_identity.Prelude.{String, ◌||◌, Option, none, some, List, [], ◌∷◌, str_eq, if◌then◌else◌}
use ewqwe_identity.Types.{haip, annex_a, CredentialType, ClaimDefinition, CredentialTypeConfig}

-- A row of the tables; every claim's path is its id.
abbrev row : String → String → String → ClaimDefinition
row id name description = record { id = id; name = name; path = id; description = some description }

abbrev pub mdl_claims : List ClaimDefinition
mdl_claims =
    row "family_name" "Family Name" "Last/surname"
    ∷ row "given_name" "Given Name" "First name"
    ∷ row "birth_date" "Birth Date" "Date of birth"
    ∷ row "portrait" "Portrait" "Photo of the holder"
    ∷ row "age_over_21" "Age Over 21" "Whether holder is over 21"
    ∷ row "age_over_18" "Age Over 18" "Whether holder is over 18"
    ∷ row "document_number" "Document Number" "License document number"
    ∷ row "issue_date" "Issue Date" "Date of issuance"
    ∷ row "expiry_date" "Expiry Date" "Date of expiration"
    ∷ row "issuing_authority" "Issuing Authority" "Authority that issued the license"
    ∷ row "issuing_country" "Issuing Country" "Country of issuance"
    ∷ row "driving_privileges" "Driving Privileges" "Vehicle categories and restrictions"
    ∷ []

abbrev pub pid_claims : List ClaimDefinition
pid_claims =
    row "family_name" "Family Name" "Last/surname"
    ∷ row "given_name" "Given Name" "First name"
    ∷ row "birth_date" "Birth Date" "Date of birth"
    ∷ row "portrait" "Portrait" "Photo of the holder"
    ∷ row "nationality" "Nationality" "Nationality"
    ∷ row "place_of_birth" "Place of Birth" "Place of birth"
    ∷ row "resident_address" "Resident Address" "Current address"
    ∷ row "resident_country" "Resident Country" "Country of residence"
    ∷ row "sex" "Sex" "Sex/gender"
    ∷ []

abbrev pub proof_of_age_claims : List ClaimDefinition
proof_of_age_claims =
    row "age_over_18" "Age Over 18" "Whether the holder is 18 years of age or older" ∷ []

abbrev pub france_identite_claims : List ClaimDefinition
france_identite_claims =
    row "age_over_18" "Age Over 18" "Whether the holder is 18 years of age or older"
    ∷ row "family_name" "Family Name" "Last/surname"
    ∷ row "given_name" "Given Name" "First name"
    ∷ row "birth_date" "Birth Date" "Date of birth"
    ∷ row "portrait" "Portrait" "Photo of the holder"
    ∷ []

abbrev pub credential_type_mdl : CredentialTypeConfig
credential_type_mdl = record {
  id = CredentialType.mdl;
  name = "Mobile Driver's License";
  doc_type = "org.iso.18013.5.1.mDL";
  namespace = "org.iso.18013.5.1";
  profile = haip;
  claims = mdl_claims;
}

abbrev pub credential_type_pid : CredentialTypeConfig
credential_type_pid = record {
  id = CredentialType.national_id;
  name = "National ID (EU PID)";
  doc_type = "eu.europa.ec.eudi.pid.1";
  namespace = "eu.europa.ec.eudi.pid.1";
  profile = haip;
  claims = pid_claims;
}

abbrev pub credential_type_proof_of_age : CredentialTypeConfig
credential_type_proof_of_age = record {
  id = CredentialType.proof_of_age;
  name = "Proof of Age";
  doc_type = "eu.europa.ec.av.1";
  namespace = "eu.europa.ec.av.1";
  profile = annex_a;
  claims = proof_of_age_claims;
}

abbrev pub credential_type_france_identite : CredentialTypeConfig
credential_type_france_identite = record {
  id = CredentialType.france_identite_numerique;
  name = "France Identité Numérique";
  doc_type = "eu.europa.ec.eudi.pid.1";
  namespace = "eu.europa.ec.eudi.pid.1";
  profile = haip;
  claims = france_identite_claims;
}

-- Lookup by key.
unfoldable pub get_credential_type : String → Option CredentialTypeConfig
get_credential_type key =
    if str_eq key "mdl"
    then some credential_type_mdl
    else if str_eq key "national-id" || str_eq key "national_id" || str_eq key "pid"
    then some credential_type_pid
    else if str_eq key "proof-of-age" || str_eq key "proof_of_age"
    then some credential_type_proof_of_age
    else if str_eq key "france-identite-numerique"
    then some credential_type_france_identite
    else none
