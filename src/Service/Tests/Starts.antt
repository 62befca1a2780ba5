-- ===== src/Service/Tests/Starts.antt =====
-- Runs of the start of a transaction on the in-memory store.
use ewqwe_identity.Prelude.{String, ◌≡◌, ◌⊎◌, refl, none, some, false}
use ewqwe_identity.Prelude.Int.{pos, add_i64, times_1000, ltb_ℤ}
use ewqwe_identity.Prelude.Result.{ok, err}
use ewqwe_identity.Types.{
  OpenId4vpError, InitTransactionResponse, annex_a, ClientIdScheme, direct_post,
}
use ewqwe_identity.Config.{determine_profile}
use ewqwe_identity.Dcql.Validity.{is_valid}
use ewqwe_identity.Dcql.Build.{build_default_dcql_for_credential_type}
use ewqwe_identity.Store.Spec.{Tx, Unique}
use ewqwe_identity.Store.Memory.{Store, in_memory, set as memory_set}
use ewqwe_identity.Store.Memory.Law.{IsValid, held, in_memory-Refines}
use ewqwe_identity.Store.Tests.{store_1, store_1-IsValid}
use ewqwe_identity.Service.Init.{
  Client, init_transaction, prepare, response_for, given_or, client_for, response_uri_of,
}
use ewqwe_identity.Service.Init.Law.{IsPrepared, IsStored, init_transaction-IsStored}
use ewqwe_identity.Service.Lifecycle.{
  pending_status, init_transaction-get_transaction_status,
  init_transaction-get_authorization_request,
}
use ewqwe_identity.Service.Request.{get_authorization_request, request_by}
use ewqwe_identity.Service.Wallet.{get_transaction_status}
use ewqwe_identity.Service.Reachable as Calls
use ewqwe_identity.Service.Reachable.{run, Reaches, stop, step}
use ewqwe_identity.Service.Reachable.Law.{MadeBy, run-Sound, Reaches-Unique}
use ewqwe_identity.Service.Reachable.Descent.{Descends}
use ewqwe_identity.Service.Tests.{externals, service, plain_call, draws_2, wallet_data}

init_transaction-IsStored_example :
    ((tx : Tx) × (url_scheme : String) × IsStored externals service plain_call "https://rp" draws_2
        in_memory IsValid held in_memory-Refines store_1 tx url_scheme
        (init_transaction externals service in_memory plain_call "https://rp" draws_2 store_1))
    ⊎ ((e : OpenId4vpError) × (init_transaction externals service in_memory plain_call "https://rp"
            draws_2 store_1
          ≡ (err e, store_1)))
init_transaction-IsStored_example =
    init_transaction-IsStored externals service plain_call "https://rp" draws_2 in_memory IsValid
      held in_memory-Refines store_1 store_1-IsValid

abbrev resp_2 : InitTransactionResponse
resp_2 = record {
  transaction_id = "tx-2";
  client_id = "redirect_uri:https://rp/ewqwe_api/openid4vp/direct_post";
  client_id_scheme = ClientIdScheme.redirect_uri;
  request_uri = "https://rp/ewqwe_api/openid4vp/request/tx-2";
  authorization_request_uri = "av://?";
  expires_in = pos 300;
  profile = annex_a;
  qr_code_data_url = none;
}

answers_2 :
    (init_transaction externals service in_memory plain_call "https://rp" draws_2 store_1).0
    ≡ ok resp_2
unfolding init_transaction prepare response_for determine_profile is_valid
    build_default_dcql_for_credential_type memory_set
answers_2 = refl

live_2 : ltb_ℤ (add_i64 draws_2.now (times_1000 service.ttl_secs)) (pos 2000) ≡ false
unfolding add_i64 times_1000
live_2 = refl

init_transaction-get_transaction_status_example :
    (resp_2.transaction_id ≡ draws_2.uuid)
    × ((get_transaction_status in_memory
          (pos 2000)
          (pos 2000)
          resp_2.transaction_id
          (init_transaction externals service in_memory plain_call "https://rp" draws_2
            store_1).1).0
        ≡ ok (pending_status (add_i64 draws_2.now (times_1000 service.ttl_secs)) (pos 2000)))
init_transaction-get_transaction_status_example =
    init_transaction-get_transaction_status externals service plain_call "https://rp" draws_2
      in_memory IsValid held in_memory-Refines store_1 resp_2 (pos 2000) (pos 2000) store_1-IsValid
      answers_2 live_2

init_transaction-get_authorization_request_example :
    (tx : Tx) × (url_scheme : String) × IsPrepared externals service plain_call "https://rp" draws_2
      tx url_scheme
    × ((get_authorization_request externals in_memory service
          (pos 2000)
          draws_2.uuid
          (init_transaction externals service in_memory plain_call "https://rp" draws_2
            store_1).1).0
        ≡ request_by externals service tx tx.profile)
init_transaction-get_authorization_request_example =
    init_transaction-get_authorization_request externals service plain_call "https://rp" draws_2
      in_memory IsValid held in_memory-Refines store_1 resp_2 (pos 2000) store_1-IsValid answers_2
      live_2

abbrev client_2 : Client
client_2 = record {
  client_id = "redirect_uri:https://rp/ewqwe_api/openid4vp/direct_post";
  client_id_scheme = ClientIdScheme.redirect_uri;
  response_mode = direct_post;
  url_scheme = "av://";
}

has_client_2 :
    client_for service.jar_key
      (determine_profile plain_call.credential_type plain_call.profile)
      (response_uri_of "https://rp")
    ≡ ok client_2
unfolding client_for determine_profile response_uri_of
has_client_2 = refl

draws_state : given_or plain_call.state draws_2.state_token ≡ ok "state-2"
unfolding given_or
draws_state = refl

draws_nonce : given_or plain_call.nonce draws_2.nonce_token ≡ ok "nonce-2"
unfolding given_or
draws_nonce = refl

abbrev call_1 : Calls.Call
call_1 = Calls.respond (some wallet_data) none none

run-Sound_example :
    IsValid (run externals service in_memory call_1 store_1)
    × Descends
        (MadeBy externals service call_1)
        (held store_1)
        (held (run externals service in_memory call_1 store_1))
run-Sound_example =
    run-Sound externals service in_memory IsValid held in_memory-Refines call_1 store_1
      store_1-IsValid

abbrev after_1 : Store
after_1 = run externals service in_memory (Calls.init plain_call "https://rp" draws_2) store_1

abbrev after_2 : Store
after_2 = run externals service in_memory call_1 after_1

Reaches-Unique_example : IsValid after_2 × Unique (held after_2)
Reaches-Unique_example =
    Reaches-Unique externals service in_memory IsValid held in_memory-Refines store_1 after_2
      store_1-IsValid
      (step (Calls.init plain_call "https://rp" draws_2) store_1
        (step call_1 after_1 (stop after_2)))
