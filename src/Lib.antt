-- ===== src/Lib.antt =====
-- Verification of the ewQwe identity verifier: the relying party of OpenID4VP and its journal.
--
-- The program. A relying party starts a transaction (`init_transaction`), shows the wallet a link,
-- answers the wallet's fetch of the request (`get_authorization_request`), takes the wallet's answer
-- (`handle_wallet_response`, `handle_wallet_error`), and is polled by the browser
-- (`get_transaction_status`) until the transaction is consumed. All of this is in
-- crates/ewqwe-openid4vp; transactions live in a store behind a trait with two back ends. The server
-- crate crates/ewqwe-credential-verifier-server records every verification in a hash-chained journal.
--
-- The files.
--   Prelude: tests on numbers and texts, lists, options, `i64` with its wrap-around, results, sets.
--   Json: `serde_json::Value` and its map, whose entries stand in the order of their keys.
--   Types: crates/ewqwe-openid4vp/src/types.rs and error.rs, with the source's fields and variants.
--   Config: crates/ewqwe-openid4vp/src/config.rs, the tables and `determine_profile`.
--   Dcql: crates/ewqwe-openid4vp/src/dcql.rs (`Build` and `Convert`) and `DCQLQuery::is_valid` of
--     types.rs (`Validity`).
--   Store: crates/ewqwe-openid4vp/src/transaction.rs and stores/. `Spec` is the abstract store, a list
--     of transactions; `Interface` is the trait as a record of operations, with the laws `Refines` that
--     the service relies on, and `RefinesOn` is the same for the transactions that satisfy a predicate;
--     `Memory`, `Sqlite` and `Dyn` are the implementations.
--   Service: crates/ewqwe-openid4vp/src/service.rs over any store that refines the specification.
--     `Init`, `Request` and `Wallet` are the operations; `Lifecycle` joins them; `Reachable` is the
--     step relation of all calls; `Presentation` is `verify_presentation`, which joins the store, the
--     parser and the two credential formats.
--   Credential, Cbor: error.rs and util.rs of crates/ewqwe-digital-credential.
--   SdJwt: src/sd_jwt_verification.rs there. `Decode` reads the claims, `Keys` finds the keys, `Verify`
--     checks the signatures; `Nonce`, `Forged` and `Origin` relate what is read to what is checked.
--   Mdoc: src/mdoc_decoder.rs and src/mdoc_verification.rs there. `Decode` reads the claims, `Cose` checks
--     signatures, `Mso` the issuer's object and the digests, `Device` builds what the device signs, and
--     `Verify` is the whole check.
--   Vp: crates/ewqwe-openid4vp/src/verification.rs: `verify_vp_token` and `verify_vp_token_against_cas`,
--     over the parser of tokens and the checks of the credential crate as parameters; `Parse` is the
--     parser, and puts the two formats in the place of the parameters.
--   Journal: crates/ewqwe-credential-verifier-server/src/journal with its SQLite back end. `Chain` is
--     the invariant, `Append` and `Stale` the append with other writers in between, `Verify` the check,
--     `Tamper` what an accepted chain binds.
--
-- How state and surroundings are modelled. A store is a state that each operation takes and
-- returns; calls on one store are made one after the other, as its lock or its database orders
-- them, except in `Store.Sqlite`, where an operation of two statements takes what other connections
-- do in between. The in-memory store satisfies `Refines`, the SQLite store `RefinesOn` for the
-- transactions that serde_json reads back as they were, when its calls run alone. Readings of the
-- clock, UUIDs and random tokens are arguments. An operation of the service that takes several
-- locks is one step here, except in the journal, where other writers act between the read of the
-- head and the write. Code outside the repository is a parameter: the alphanumeric characters of
-- Unicode, serde_json, percent and form encoding, QR codes, SHA-256, base64, CBOR and COSE, JWT
-- signatures, certificates, the readers of times, and the signing and decryption that crypto.rs
-- does with openssl. Allocations by openssl do not fail. Nothing is assumed of serde_json at
-- transactions: the laws of the SQLite store are about those that it reads back. Failures of the
-- database engine itself are not modelled.
--
-- Bounds. Milliseconds are `i64` and wrap as release builds do. The loop of `append_verification` runs
-- on the source's own bound of five attempts. All other loops are structural.
--
-- Not modelled: of the service, `create` and the JWK set; the issuing of credentials, the PostgreSQL
-- journal, HTTP routes, parameters, TLS, the user interface, logging.
pub mod Prelude
pub mod Json
pub mod Types
pub mod Config
pub mod Dcql
pub mod Store
pub mod Credential
pub mod Cbor
pub mod Mdoc
pub mod SdJwt
pub mod Service
pub mod Vp
pub mod Journal
