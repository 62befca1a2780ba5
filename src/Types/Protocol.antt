-- ===== src/Types/Protocol.antt =====
-- crates/ewqwe-openid4vp/src/types.rs: protocol profiles, schemes and modes with their `Display`.
use ewqwe_identity.Prelude.{String, Bool, Option, List}

pub data ProfileId : Type 0 where
  haip haip_x509_san_dns annex_a : ProfileId

unfoldable pub profile_to_string : ProfileId → String
profile_to_string haip = "haip"
profile_to_string haip_x509_san_dns = "haip-x509-san-dns"
profile_to_string annex_a = "annex-a"

pub data ClientIdScheme : Type 0 where
  x509_san_dns redirect_uri x509_san_uri did x509_hash : ClientIdScheme

unfoldable pub scheme_to_string : ClientIdScheme → String
scheme_to_string x509_san_dns = "x509_san_dns"
scheme_to_string redirect_uri = "redirect_uri"
scheme_to_string x509_san_uri = "x509_san_uri"
scheme_to_string did = "did"
scheme_to_string x509_hash = "x509_hash"

pub data ResponseMode : Type 0 where
  fragment direct_post direct_post_jwt dc_api dc_api_jwt : ResponseMode

unfoldable pub mode_to_string : ResponseMode → String
mode_to_string fragment = "fragment"
mode_to_string direct_post = "direct_post"
mode_to_string direct_post_jwt = "direct_post.jwt"
mode_to_string dc_api = "dc_api"
mode_to_string dc_api_jwt = "dc_api.jwt"

pub record ProtocolProfile : Type 0 where
  pub id : ProfileId
  pub name : String
  pub description : String
  pub client_id_scheme : ClientIdScheme
  pub response_mode : ResponseMode
  pub url_schemes : List String
  pub requires_jar_signing : Bool

pub data CredentialType : Type 0 where
  mdl national_id proof_of_age france_identite_numerique : CredentialType

unfoldable pub credential_type_to_string : CredentialType → String
credential_type_to_string mdl = "mdl"
credential_type_to_string national_id = "national-id"
credential_type_to_string proof_of_age = "proof-of-age"
credential_type_to_string france_identite_numerique = "france-identite-numerique"

pub record ClaimDefinition : Type 0 where
  pub id : String
  pub name : String
  pub path : String
  pub description : Option String

pub record CredentialTypeConfig : Type 0 where
  pub id : CredentialType
  pub name : String
  pub doc_type : String
  pub namespace : String
  pub profile : ProfileId
  pub claims : List ClaimDefinition
