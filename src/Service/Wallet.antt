-- ===== src/Service/Wallet.antt =====
-- The wallet's answers and the polling of a transaction: `handle_wallet_response`,
-- `handle_wallet_error`, `get_transaction_status` and the lookups by `state`.
pub mod Law
pub mod Status
pub mod Consume
use ewqwe_identity.Prelude.{
  String, Bool, true, false, str_eq, Option, none, some, get_or, opt_map, List, [], ◌∷◌, ◌<>◌,
  if◌then◌else◌,
}
use ewqwe_identity.Prelude.Int.{ℤ, sub_i64, div_1000}
use ewqwe_identity.Prelude.Result.{Result, ok, err, ◌>>=◌, ok_or}
use ewqwe_identity.Types.{
  OpenId4vpResult, bad_request, config, not_found, TransactionStatus, pending, received, verified,
  error, expired, OpenId4vpResponse, WalletAuthorizationError, TransactionStatusResult,
}
use ewqwe_identity.Store.Spec.{Tx}
use ewqwe_identity.Store.Interface.{TransactionStore}
use ewqwe_identity.Service.Base.{OpenId4vpService, JweKey, Externals, DecryptedWalletResponse}

-- The closures that are passed to `update_by_state`.
abbrev pub receive : OpenId4vpResponse → Tx → Tx
receive wallet_data tx = record tx { wallet_response = some wallet_data; status = received }

abbrev pub refuse : WalletAuthorizationError → Tx → Tx
refuse e tx = record tx { wallet_error = some e; status = error }

-- `if decrypted.state.is_empty() { fallback_state.unwrap_or("") } else { decrypted.state }`
unfoldable pub from_decrypted : Option String → DecryptedWalletResponse → OpenId4vpResponse
from_decrypted fallback_state decrypted = record {
  vp_token = decrypted.vp_token;
  presentation_submission = decrypted.presentation_submission;
  state = if str_eq decrypted.state "" then get_or fallback_state "" else decrypted.state;
}

module _ (x : Externals) (service : OpenId4vpService) where
  unfoldable pub read_response :
      Option OpenId4vpResponse → Option String → Option String → OpenId4vpResult OpenId4vpResponse
  unfolding from_decrypted
  read_response given (some jwe) fallback_state = do
    key ← ok_or service.jwe_key (
        config
          "Unable to handle wallet response: HAIP is not configured; the JWE encryption key is not configured")
    decrypted ← x.decrypt_jwe_response jwe key
    ok (from_decrypted fallback_state decrypted)
  read_response (some d) none fallback_state = ok d
  read_response none none fallback_state = err (bad_request "No wallet response data provided")

-- `if found.is_none() { return Err(…) }`
unfoldable pub must_exist :
    {S : Type 0} → String → OpenId4vpResult (Option (Unit {0})) × S → OpenId4vpResult (Unit {0}) × S
must_exist state (ok (some u), s) = (ok tt, s)
must_exist state (ok none, s) = (err (bad_request ("No transaction found for state: " <> state)), s)
must_exist state (err e, s) = (err e, s)

pub expired_status : TransactionStatusResult
expired_status = record {
  status = expired;
  expires_in = none;
  authorization_response = none;
  nonce = none;
  wallet_error = none;
  error_message = none;
  transaction_data = none;
}

-- The last answer of `get_transaction_status`, with the time left.
unfoldable pub open_status : ℤ → Tx → TransactionStatusResult
unfolding sub_i64 div_1000
open_status now tx = record {
  status = tx.status;
  expires_in = some (div_1000 (sub_i64 tx.expires_at now));
  authorization_response = none;
  nonce = none;
  wallet_error = none;
  error_message = tx.error_message;
  transaction_data = none;
}

unfoldable pub received_status : Tx → OpenId4vpResponse → TransactionStatusResult
received_status tx wr = record {
  status = received;
  expires_in = none;
  authorization_response = some wr;
  nonce = some tx.nonce;
  wallet_error = none;
  error_message = none;
  transaction_data = tx.transaction_data;
}

unfoldable pub error_status : Tx → TransactionStatusResult
error_status tx = record {
  status = error;
  expires_in = none;
  authorization_response = none;
  nonce = none;
  wallet_error = tx.wallet_error;
  error_message = tx.error_message;
  transaction_data = none;
}

-- The two guarded answers and the last one, in the order of the source.
unfoldable pub status_for :
    ℤ → Tx → TransactionStatus → Option OpenId4vpResponse → TransactionStatusResult
unfolding open_status received_status error_status
status_for now tx received (some wr) = received_status tx wr
status_for now tx received none = open_status now tx
status_for now tx error wr = error_status tx
status_for now tx pending wr = open_status now tx
status_for now tx verified wr = open_status now tx
status_for now tx expired wr = open_status now tx

unfoldable pub status_of : ℤ → Option Tx → OpenId4vpResult TransactionStatusResult
unfolding status_for
status_of now none = err (not_found "Transaction not found")
status_of now (some tx) = ok (status_for now tx tx.status tx.wallet_response)

module _ {S : Type 0} (ops : TransactionStore S) where
  unfoldable pub respond : OpenId4vpResult OpenId4vpResponse → S → OpenId4vpResult (Unit {0}) × S
  unfolding must_exist
  respond (err e) s = (err e, s)
  respond (ok wallet_data) s =
      must_exist wallet_data.state (ops.update_by_state wallet_data.state (receive wallet_data) s)

  unfoldable pub handle_wallet_response :
      Externals
      → OpenId4vpService
      → Option OpenId4vpResponse
      → Option String
      → Option String
      → S
      → OpenId4vpResult (Unit {0}) × S
  unfolding respond read_response
  handle_wallet_response x service given jwe_response fallback_state s =
      respond (read_response x service given jwe_response fallback_state) s

  unfoldable pub handle_wallet_error : WalletAuthorizationError → S → OpenId4vpResult (Unit {0}) × S
  unfolding must_exist
  handle_wallet_error e s =
      let state = get_or e.state "" in must_exist state (ops.update_by_state state (refuse e) s)

  unfoldable pub poll :
      ℤ → String → OpenId4vpResult Bool × S → OpenId4vpResult TransactionStatusResult × S
  unfolding expired_status status_of
  poll now id (err e, s) = (err e, s)
  poll now id (ok true, s) = (ok expired_status, s)
  poll now id (ok false, s) = (ops.get id s >>= status_of now, s)

  -- `clock` is read by `is_expired`, `now` after it.
  unfoldable pub get_transaction_status :
      ℤ → ℤ → String → S → OpenId4vpResult TransactionStatusResult × S
  unfolding poll
  get_transaction_status clock now id s = poll now id (ops.is_expired clock id s)

  unfoldable pub get_nonce_by_state : String → S → OpenId4vpResult (Option String)
  get_nonce_by_state state s = do
    found ← ops.find_by_state state s
    ok (opt_map (λ (tx : Tx). tx.nonce) found)

  unfoldable pub get_transaction_by_state : String → S → OpenId4vpResult (Option Tx)
  get_transaction_by_state state s = ops.find_by_state state s

  unfoldable pub mark_transaction_verified : String → S → OpenId4vpResult (Unit {0}) × S
  mark_transaction_verified id s = ops.update_status id verified s

  unfoldable pub consume : OpenId4vpResult (Option Tx) → S → OpenId4vpResult Bool × S
  consume (err e) s = (err e, s)
  consume (ok none) s = (ok false, s)
  consume (ok (some transaction)) s = ops.delete transaction.id s

  unfoldable pub consume_transaction_by_state : String → S → OpenId4vpResult Bool × S
  unfolding consume
  consume_transaction_by_state state s = consume (ops.find_by_state state s) s
