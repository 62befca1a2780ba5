-- ===== src/Types/Dcql.antt =====
-- crates/ewqwe-openid4vp/src/types.rs: the DCQL query types.
use ewqwe_identity.Prelude.{ℕ, String, Bool, true, Option, List, get_or}
use ewqwe_identity.Json.{Json}

-- `Index` holds a `u32`.
pub data ClaimsPathComponent : Type 0 where
  key : String → ClaimsPathComponent
  index : ℕ → ClaimsPathComponent
  all : ClaimsPathComponent

pub record DcqlClaimsQuery : Type 0 where
  pub id : Option String
  pub path : List ClaimsPathComponent
  pub values : Option (List Json)
  pub intent_to_retain : Option Bool

pub data TrustedAuthorityType : Type 0 where
  aki etsi_tl openid_federation : TrustedAuthorityType

pub record TrustedAuthority : Type 0 where
  pub authority_type : TrustedAuthorityType
  pub values : List String

pub record DcqlCredentialMeta : Type 0 where
  pub doctype_value : Option String
  pub vct_values : Option (List String)
  pub type_values : Option (List String)

pub record DcqlCredentialQuery : Type 0 where
  pub id : String
  pub format : String
  pub meta : DcqlCredentialMeta
  pub claims : Option (List DcqlClaimsQuery)
  pub claim_sets : Option (List (List String))
  pub multiple : Option Bool
  pub trusted_authorities : Option (List TrustedAuthority)
  pub require_cryptographic_holder_binding : Option Bool

pub requires_holder_binding : DcqlCredentialQuery → Bool
requires_holder_binding q = get_or q.require_cryptographic_holder_binding true

pub record DcqlCredentialSetQuery : Type 0 where
  pub options : List (List String)
  pub required : Option Bool
  pub purpose : Option String

pub record DcqlQuery : Type 0 where
  pub credentials : List DcqlCredentialQuery
  pub credential_sets : Option (List DcqlCredentialSetQuery)
