-- ===== src/Dcql.antt =====
-- crates/ewqwe-openid4vp/src/dcql.rs and the validation of queries in types.rs.
pub mod Validity
pub mod Build
pub mod Convert
