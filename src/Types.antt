-- ===== src/Types.antt =====
-- crates/ewqwe-openid4vp/src/types.rs and error.rs: the data that the relying party keeps and
-- exchanges.
mod Dcql
mod Protocol
mod Transaction
mod Error
pub mod Path
pub use Dcql.*
pub use Protocol.{
  ProfileId, haip, haip_x509_san_dns, annex_a, ClientIdScheme, x509_san_dns, redirect_uri,
  x509_san_uri, did, x509_hash, ResponseMode, fragment, direct_post, direct_post_jwt, dc_api,
  dc_api_jwt, ProtocolProfile, CredentialType, mdl, national_id, proof_of_age,
  france_identite_numerique, ClaimDefinition, CredentialTypeConfig,
}
unfoldable pub use Protocol.{
  profile_to_string, scheme_to_string, mode_to_string, credential_type_to_string,
}
pub use Transaction.*
pub use Error.*
