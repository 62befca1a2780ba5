-- ===== src/Service/Tests.antt =====
-- Runs of the service on the in-memory store.
mod Starts
use ewqwe_identity.Prelude.{
  String, ◌≡◌, ◌⊎◌, inl, inr, refl, Option, none, some, List, [], ◌∷◌, true, false, ◌<>◌,
}
use ewqwe_identity.Prelude.Int.{ℤ, pos, add_i64, times_1000, ltb_ℤ}
use ewqwe_identity.Prelude.Result.{ok, err}
use ewqwe_identity.Json.{null, str}
use ewqwe_identity.Types.{
  OpenId4vpError, OpenId4vpResponse, WalletAuthorizationError, InitTransactionRequest,
  InitTransactionResponse, ProfileId, haip, haip_x509_san_dns, annex_a, ClientIdScheme, direct_post,
  direct_post_jwt, bad_request, AuthorizationRequestResult,
}
use ewqwe_identity.Config.{determine_profile}
use ewqwe_identity.Dcql.Validity.{is_valid}
use ewqwe_identity.Dcql.Validity.Ascii.{ascii_alphanumeric}
use ewqwe_identity.Dcql.Build.{build_default_dcql_for_credential_type}
use ewqwe_identity.Store.Spec.{Tx, Unique, find_id, find_state, remove, past}
use ewqwe_identity.Store.Memory.{
  Store, in_memory, is_expired as memory_is_expired, get as memory_get,
}
use ewqwe_identity.Store.Memory.Law.{IsValid, held, in_memory-Refines}
use ewqwe_identity.Store.Tests.{tx_1, store_1, store_1-IsValid}
use ewqwe_identity.Service.Base.{Externals, OpenId4vpService, JarKey, JweKey}
use ewqwe_identity.Service.Init.{
  Draws, Client, init_transaction, prepare, response_for, given_or, client_for, response_uri_of,
}
use ewqwe_identity.Service.Init.Law.{IsPrepared, IsStored, init_transaction-IsStored}
use ewqwe_identity.Service.Init.Default.{prepare-default}
use ewqwe_identity.Service.Lifecycle.{
  pending_status, init_transaction-get_transaction_status,
  init_transaction-get_authorization_request,
}
use ewqwe_identity.Service.Request.{get_authorization_request, plain_json, request_by, jar_payload}
use ewqwe_identity.Service.Request.Law as Fetched
use ewqwe_identity.Service.Request.Names.{IsRequestFor, get_authorization_request-IsRequestFor}
use ewqwe_identity.Service.Wallet.{
  receive, read_response, handle_wallet_response, get_transaction_status, received_status,
  get_nonce_by_state, consume_transaction_by_state,
}
use ewqwe_identity.Service.Wallet.Law.{
  handle_wallet_response-get_transaction_status, handle_wallet_response-unknown,
}
use ewqwe_identity.Service.Wallet.Status.{answer_for, get_transaction_status-answer_for}
use ewqwe_identity.Service.Wallet.Consume.{consume_transaction_by_state-once}
use ewqwe_identity.Service.Reachable as Calls
use ewqwe_identity.Service.Reachable.{run, Reaches, stop, step}
use ewqwe_identity.Service.Reachable.Law.{MadeBy, run-Sound, Reaches-Unique}
use ewqwe_identity.Service.Reachable.Descent.{Descends}
use ewqwe_identity.Prelude.{if◌then◌else◌}

abbrev pub externals : Externals
externals = record {
  is_alphanumeric = ascii_alphanumeric;
  quoted = λ s. s;
  query_to_json = λ q. null;
  formats_to_json = λ f. null;
  json_to_string = λ j. ok "{}";
  url_encode = λ s. s;
  form_encode = λ ps. "";
  qr_code = λ s. none;
  sign_jar = λ p k. ok p.nonce;
  decrypt_jwe_response =
      λ jwe k. ok (record { vp_token = jwe; presentation_submission = none; state = "state-1" });
}

abbrev pub service : OpenId4vpService
service = record {
  jar_key = some (record { cert_hash = "hash"; san_dns_name = "rp" });
  jwe_key = some (record { public_jwk = null });
  ttl_secs = pos 300;
}

abbrev pub plain_call : InitTransactionRequest
plain_call = record {
  dcql_query = none;
  nonce = none;
  state = none;
  client_metadata = none;
  profile = none;
  credential_type = some "proof-of-age";
  transaction_data = none;
}

abbrev pub draws_2 : Draws
draws_2 = record {
  uuid = "tx-2";
  state_token = ok "state-2";
  nonce_token = ok "nonce-2";
  now = pos 1000;
}

abbrev pub wallet_data : OpenId4vpResponse
wallet_data = record { vp_token = "token"; presentation_submission = none; state = "state-1" }

abbrev denial : WalletAuthorizationError
denial = record { error = "access_denied"; error_description = none; state = some "state-1" }

found_1 : find_state "state-1" (held store_1) ≡ some tx_1
unfolding find_state
found_1 = refl

missing_9 : find_state "state-9" (held store_1) ≡ none
unfolding find_state
missing_9 = refl

reads_plain : read_response externals service (some wallet_data) none none ≡ ok wallet_data
unfolding read_response
reads_plain = refl

reads_jwe : read_response externals service none (some "token") none ≡ ok wallet_data
unfolding read_response
reads_jwe = refl

abbrev stray : OpenId4vpResponse
stray = record { vp_token = "token"; presentation_submission = none; state = "state-9" }

reads_stray : read_response externals service (some stray) none none ≡ ok stray
unfolding read_response
reads_stray = refl

handle_wallet_response-get_transaction_status_example :
    ((handle_wallet_response in_memory externals service none (some "token") none store_1).0
      ≡ ok tt)
    × ((get_transaction_status in_memory
          (pos 1000)
          (pos 1001)
          "tx-1"
          (handle_wallet_response in_memory externals service none (some "token") none store_1).1).0
        ≡ ok (received_status tx_1 wallet_data))
    × IsValid
        (handle_wallet_response in_memory externals service none (some "token") none store_1).1
handle_wallet_response-get_transaction_status_example =
    handle_wallet_response-get_transaction_status in_memory IsValid held in_memory-Refines externals
      service none (some "token") none store_1 wallet_data tx_1 (pos 1000) (pos 1001)
      store_1-IsValid reads_jwe found_1 refl

get_transaction_status-answer_for_example :
    ((get_transaction_status in_memory (pos 400000) (pos 400000) "tx-1" store_1).0
      ≡ ok (answer_for (pos 400000) (pos 400000) (find_id "tx-1" (held store_1))))
    × (held (get_transaction_status in_memory (pos 400000) (pos 400000) "tx-1" store_1).1 ≡ (
        if past (pos 400000) (find_id "tx-1" (held store_1))
        then remove "tx-1" (held store_1)
        else held store_1))
    × IsValid (get_transaction_status in_memory (pos 400000) (pos 400000) "tx-1" store_1).1
get_transaction_status-answer_for_example =
    get_transaction_status-answer_for in_memory IsValid held in_memory-Refines (pos 400000)
      (pos 400000) "tx-1" store_1 store_1-IsValid

consume_transaction_by_state-once_example :
    ((consume_transaction_by_state in_memory "state-1" store_1).0 ≡ ok true)
    × (held (consume_transaction_by_state in_memory "state-1" store_1).1
        ≡ remove "tx-1" (held store_1))
    × (get_nonce_by_state in_memory "state-1"
          (consume_transaction_by_state in_memory "state-1" store_1).1
        ≡ ok none)
    × (consume_transaction_by_state in_memory "state-1"
          (consume_transaction_by_state in_memory "state-1" store_1).1
        ≡ (ok false, (consume_transaction_by_state in_memory "state-1" store_1).1))
consume_transaction_by_state-once_example =
    consume_transaction_by_state-once in_memory IsValid held in_memory-Refines "state-1" store_1
      tx_1 store_1-IsValid found_1

get_authorization_request-answer_for_example :
    (get_authorization_request externals in_memory service (pos 1000) "tx-1" store_1).0
    ≡ Fetched.answer_for externals service (pos 1000) (find_id "tx-1" (held store_1))
get_authorization_request-answer_for_example =
    Fetched.get_authorization_request-answer_for externals service in_memory IsValid held
      in_memory-Refines (pos 1000) "tx-1" store_1 store_1-IsValid

abbrev signed : AuthorizationRequestResult
signed = record { body = "nonce-1"; content_type = "application/oauth-authz-req+jwt" }

abbrev haip_1 : Tx
haip_1 = record tx_1 { profile = haip }

abbrev haip_store : Store
haip_store = record { inner = ("tx-1", haip_1) ∷ []; ttl_secs = pos 300 }

haip_store-IsValid : IsValid haip_store
haip_store-IsValid = record {
  keyed = (refl, tt);
  distinct = record { unique_ids = (λ m. m, tt); unique_states = (λ m. m, tt) };
}

signs :
    (get_authorization_request externals in_memory service (pos 1000) "tx-1" haip_store).0
    ≡ ok signed
unfolding get_authorization_request jar_payload memory_is_expired memory_get
signs = refl

get_authorization_request-IsRequestFor_example :
    (tx : Tx) × (find_id "tx-1" (held haip_store) ≡ some tx)
    × (ltb_ℤ tx.expires_at (pos 1000) ≡ false)
    × IsRequestFor externals service tx tx.profile signed
get_authorization_request-IsRequestFor_example =
    get_authorization_request-IsRequestFor externals service in_memory IsValid held
      in_memory-Refines (pos 1000) "tx-1" haip_store signed haip_store-IsValid signs
