-- ===== src/Service/Reachable.antt =====
-- The service as a step relation on the store, and what no sequence of calls breaks.
pub mod Descent
pub mod Law
use ewqwe_identity.Prelude.{String, Option, ◌≡◌}
use ewqwe_identity.Prelude.Int.{ℤ}
use ewqwe_identity.Types.{InitTransactionRequest, OpenId4vpResponse, WalletAuthorizationError}
use ewqwe_identity.Store.Interface.{TransactionStore}
use ewqwe_identity.Service.Base.{OpenId4vpService, Externals}
use ewqwe_identity.Service.Init.{Draws, init_transaction}
use ewqwe_identity.Service.Request.{get_authorization_request}
use ewqwe_identity.Service.Wallet.{
  handle_wallet_response, handle_wallet_error, get_transaction_status, mark_transaction_verified,
  consume_transaction_by_state,
}

-- One call that may change the store. Calls on one store are made one after the other.
pub data Call : Type 0 where
  init : InitTransactionRequest → String → Draws → Call
  fetch : ℤ → String → Call
  respond : Option OpenId4vpResponse → Option String → Option String → Call
  wallet_error : WalletAuthorizationError → Call
  status : ℤ → ℤ → String → Call
  mark_verified : String → Call
  consume : String → Call

module _ (x : Externals) (service : OpenId4vpService) {S : Type 0} (ops : TransactionStore S) where
  unfoldable pub run : Call → S → S
  run (init request public_url draws) s =
      (init_transaction x service ops request public_url draws s).1
  run (fetch clock id) s = (get_authorization_request x ops service clock id s).1
  run (respond given jwe fallback) s = (handle_wallet_response ops x service given jwe fallback s).1
  run (wallet_error e) s = (handle_wallet_error ops e s).1
  run (status clock now id) s = (get_transaction_status ops clock now id s).1
  run (mark_verified id) s = (mark_transaction_verified ops id s).1
  run (consume state) s = (consume_transaction_by_state ops state s).1

  -- A sequence of calls.
  pub data Reaches : S → S → Type 0 where
    stop : (s : S) → Reaches s s
    step : (c : Call) (s : S) {s' : S} → Reaches (run c s) s' → Reaches s s'
