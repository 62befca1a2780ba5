-- ===== src/Service.antt =====
-- crates/ewqwe-openid4vp/src/service.rs: the life of a transaction.
pub mod Base
pub mod Init
pub mod Request
pub mod Wallet
pub mod Lifecycle
pub mod Reachable
pub mod Presentation
pub mod Tests
