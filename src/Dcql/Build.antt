-- ===== src/Dcql/Build.antt =====
-- The query builders of crates/ewqwe-openid4vp/src/dcql.rs.
pub mod Valid
pub mod Format
mod Tests
use Prim.Native.Char.{Char, code}
use ewqwe_identity.Prelude.{
  ℕ, ◌+◌, ◌/◌, ◌%◌, String, Bool, true, ◌||◌, ◌==◌, ltb, str_eq, Option, none, some, List, [], ◌∷◌,
  map, get_or, ◌<>◌, if◌then◌else◌,
}
use ewqwe_identity.Types.{
  ClaimsPathComponent, key, DcqlClaimsQuery, DcqlCredentialQuery, DcqlCredentialMeta, DcqlQuery,
  CredentialTypeConfig,
}
use ewqwe_identity.Config.{get_credential_type}

abbrev pub eu_av_namespace : String
eu_av_namespace = "eu.europa.ec.av.1"

abbrev pub eu_av_doctype : String
eu_av_doctype = "eu.europa.ec.av.1"

abbrev pub iso_mdl_namespace : String
iso_mdl_namespace = "org.iso.18013.5.1"

abbrev pub iso_mdl_doctype : String
iso_mdl_doctype = "org.iso.18013.5.1.mDL"

abbrev pub eu_pid_namespace : String
eu_pid_namespace = "eu.europa.ec.eudi.pid.1"

abbrev pub eu_pid_doctype : String
eu_pid_doctype = "eu.europa.ec.eudi.pid.1"

-- `Display` of a `u8`.
digit : ℕ → String
digit d =
    if d == 0
    then "0"
    else if d == 1
    then "1"
    else if d == 2
    then "2"
    else if d == 3
    then "3"
    else if d == 4
    then "4"
    else if d == 5
    then "5"
    else if d == 6
    then "6"
    else if d == 7
    then "7"
    else if d == 8
    then "8"
    else "9"

u8_to_string : ℕ → String
unfolding digit
u8_to_string n =
    if ltb n 10
    then digit n
    else if ltb n 100
    then digit (n / 10) <> digit (n % 10)
    else digit (n / 100) <> digit (n / 10 % 10) <> digit (n % 10)

-- A doctype and nothing else.
abbrev pub doctype_meta : Option String → DcqlCredentialMeta
doctype_meta d = record { doctype_value = d; vct_values = none; type_values = none }

-- A claim without id at the path [namespace, element].
abbrev anonymous_claim : String → String → DcqlClaimsQuery
anonymous_claim namespace element = record {
  id = none;
  path = key namespace ∷ key element ∷ [];
  values = none;
  intent_to_retain = none;
}

-- The fields that every builder leaves out.
abbrev pub credential_query :
    String → String → Option String → Option (List DcqlClaimsQuery) → DcqlCredentialQuery
credential_query id format doctype claims = record {
  id = id;
  format = format;
  meta = doctype_meta doctype;
  claims = claims;
  claim_sets = none;
  multiple = none;
  trusted_authorities = none;
  require_cryptographic_holder_binding = none;
}

unfoldable pub build_age_verification_query : Option ℕ → DcqlQuery
unfolding u8_to_string
build_age_verification_query age_threshold =
    let claim_id = "age_over_" <> u8_to_string (get_or age_threshold 18) in
    record {
      credentials =
          credential_query "eu_av_proof" "mso_mdoc" (some eu_av_doctype)
            (some (anonymous_claim eu_av_namespace claim_id ∷ []))
          ∷ [];
      credential_sets = none;
    }

unfoldable pub build_age_verification_query_with_fallback : Option ℕ → DcqlQuery
unfolding u8_to_string
build_age_verification_query_with_fallback age_threshold =
    let claim_id = "age_over_" <> u8_to_string (get_or age_threshold 18) in
    record {
      credentials =
          credential_query "eu_av_proof" "mso_mdoc" (some eu_av_doctype)
            (some (anonymous_claim eu_av_namespace claim_id ∷ []))
          ∷ credential_query "mdl_age_proof" "mso_mdoc" (some iso_mdl_doctype)
              (some (anonymous_claim iso_mdl_namespace claim_id ∷ []))
          ∷ [];
      credential_sets = some (
          record {
            options = ("eu_av_proof" ∷ []) ∷ ("mdl_age_proof" ∷ []) ∷ [];
            required = some true;
            purpose = some "Verify age for restricted content access";
          }
          ∷ []);
    }

unfoldable pub get_default_age_verification_dcql : DcqlQuery
get_default_age_verification_dcql = record {
  credentials =
      credential_query "eu_pid_age" "mso_mdoc" (some eu_pid_doctype)
        (some (anonymous_claim eu_pid_namespace "age_over_18" ∷ []))
      ∷ [];
  credential_sets = none;
}

mdl_age_query : DcqlQuery
mdl_age_query = record {
  credentials =
      credential_query "mdl_age" "mso_mdoc" (some iso_mdl_doctype)
        (some (anonymous_claim iso_mdl_namespace "age_over_18" ∷ []))
      ∷ [];
  credential_sets = none;
}

unfoldable pub build_default_dcql_for_credential_type : String → DcqlQuery
unfolding build_age_verification_query mdl_age_query get_default_age_verification_dcql
build_default_dcql_for_credential_type credential_type =
    if str_eq credential_type "proof-of-age" || str_eq credential_type "proof_of_age"
    then build_age_verification_query none
    else if str_eq credential_type "mdl"
    then mdl_age_query
    else get_default_age_verification_dcql

-- `match credential_type { "national-id-sd-jwt" | … => "dc+sd-jwt", _ => "mso_mdoc" }`
format_for : String → String
format_for t =
    if str_eq t "national-id-sd-jwt" || str_eq t "tax-sd-jwt" || str_eq t "pda1-sd-jwt"
    then "dc+sd-jwt"
    else "mso_mdoc"

-- The body of the `map` over the requested claims.
named_claim : String → String → String → DcqlClaimsQuery
named_claim format namespace claim_id = record {
  id = some claim_id;
  path = if str_eq format "dc+sd-jwt" then key claim_id ∷ [] else key namespace ∷ key claim_id ∷ [];
  values = none;
  intent_to_retain = none;
}

-- `replace('-', "_")`
underscored : String → String
underscored String.[] = String.[]
underscored (String.◌∷◌ c s) =
    let rest = underscored s in
    let u : Char = "_" in String.◌∷◌ (if code c == b'-' then u else c) rest

credential_id : String → String
unfolding underscored
credential_id credential_type = underscored credential_type <> "_credential"

with_config : String → List String → Option CredentialTypeConfig → DcqlQuery
unfolding build_default_dcql_for_credential_type format_for named_claim credential_id
with_config credential_type claims none = build_default_dcql_for_credential_type credential_type
with_config credential_type claims (some c) =
    let format = format_for credential_type in
    record {
      credentials =
          credential_query (credential_id credential_type) format (some c.doc_type)
            (some (map (named_claim format c.namespace) claims))
          ∷ [];
      credential_sets = none;
    }

unfoldable pub build_dcql_for_credential_type_with_claims : String → List String → DcqlQuery
unfolding with_config
build_dcql_for_credential_type_with_claims credential_type [] =
    build_default_dcql_for_credential_type credential_type
build_dcql_for_credential_type_with_claims credential_type (c ∷ cs) =
    with_config credential_type (c ∷ cs) (get_credential_type credential_type)
