-- ===== src/Store.antt =====
-- crates/ewqwe-openid4vp/src/transaction.rs and stores/: the transaction store. `Interface` is the
-- trait with what its clients rely on; `Memory` and `Sqlite` are the back ends; `Dyn` dispatches.
pub mod Spec
pub mod Interface
pub mod Memory
pub mod Sqlite
pub mod Dyn
pub mod Tests
