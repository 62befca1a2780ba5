-- ===== src/Store/Tests.antt =====
-- A store with one transaction, in both back ends, and runs of the operations.
use ewqwe_identity.Prelude.{◌≡◌, refl, false, Option, none, some, [], ◌∷◌}
use ewqwe_identity.Prelude.Int.{pos}
use ewqwe_identity.Prelude.Result.{ok}
use ewqwe_identity.Types.{pending, verified, ClientIdScheme, direct_post, annex_a}
use ewqwe_identity.Store.Spec.{Tx}
use ewqwe_identity.Store.Interface.{set_status}
use ewqwe_identity.Store.Interface.Partial.{RefinesOn}
use ewqwe_identity.Json.{Json, null}
use ewqwe_identity.Store.Memory.{Store, get, delete}
use ewqwe_identity.Store.Memory.Law as Mem
use ewqwe_identity.Store.Sqlite.{sqlite, Table, row_of, taken}
use ewqwe_identity.Store.Sqlite as Sqlite
use ewqwe_identity.Store.Sqlite.Race.{update-overwrites}
use ewqwe_identity.Store.Sqlite.Serde.{Codec, ReadsBack}
use ewqwe_identity.Store.Sqlite.Images as Sql
use ewqwe_identity.Store.Sqlite.Law.{sqlite-Refines}
use ewqwe_identity.Store.Dyn.{dyn}
use ewqwe_identity.Store.Dyn.Law as Dyn

abbrev pub tx_1 : Tx
tx_1 = record {
  id = "tx-1";
  state = "state-1";
  nonce = "nonce-1";
  created_at = pos 0;
  expires_at = pos 300000;
  status = pending;
  dcql_query = record { credentials = []; credential_sets = none };
  client_id = "redirect_uri:https://rp";
  client_id_scheme = ClientIdScheme.redirect_uri;
  response_uri = "https://rp";
  response_mode = direct_post;
  profile = annex_a;
  wallet_response = none;
  wallet_error = none;
  verification_result = none;
  error_message = none;
  client_metadata = none;
  transaction_data = none;
}

abbrev pub store_1 : Store
store_1 = record { inner = ("tx-1", tx_1) ∷ []; ttl_secs = pos 300 }

pub store_1-IsValid : Mem.IsValid store_1
store_1-IsValid = record {
  keyed = (refl, tt);
  distinct = record { unique_ids = (λ m. m, tt); unique_states = (λ m. m, tt) };
}

-- The column holds the transaction, and a result of `null` is read back as none.
abbrev read_result : Option Json → Option Json
read_result (some null) = none
read_result r = r

abbrev plain : Codec Tx
plain = record {
  to_string = λ t. ok t;
  from_str = λ t. ok (record t { verification_result = read_result t.verification_result });
  unique_violation = "UNIQUE constraint failed: transactions.state";
}

tx_1-ReadsBack : ReadsBack plain (λ t. t) tx_1
tx_1-ReadsBack = (refl, refl)

-- What is read of a transaction with such a result is not what was written.
null_result : ¬ ReadsBack plain (λ t. t) (record tx_1 { verification_result = some null })
null_result (w, r) = cc r

sqlite-Refines_example :
    RefinesOn
      (ReadsBack plain (λ t. t))
      (sqlite plain)
      (Sql.IsValid plain (λ t. t))
      (Sql.stored plain)
sqlite-Refines_example = sqlite-Refines plain (λ t. t)

dyn-Refines_example :
    RefinesOn
      (ReadsBack plain (λ t. t))
      (dyn plain)
      (Dyn.IsValid plain (λ t. t))
      (Dyn.held plain (λ t. t))
dyn-Refines_example = Dyn.dyn-Refines plain (λ t. t)

abbrev table_1 : Table Tx
table_1 = row_of tx_1 tx_1 ∷ []

-- The transaction is consumed between the read and the write of a change of status.
abbrev consumed : Table Tx → Table Tx
consumed rows = (Sqlite.delete "tx-1" rows).1

gets : Sqlite.get plain "tx-1" table_1 ≡ ok (some tx_1)
unfolding Sqlite.get row_of
gets = refl

free :
    taken (row_of (set_status verified tx_1) (set_status verified tx_1)) (consumed table_1) ≡ false
unfolding Sqlite.delete taken row_of
free = refl

update-overwrites_example :
    ((Sqlite.update plain consumed "tx-1" (set_status verified) table_1).0 ≡ ok (some tt))
    × (Sqlite.get plain "tx-1" (Sqlite.update plain consumed "tx-1" (set_status verified) table_1).1
        ≡ ok (some (set_status verified tx_1)))
update-overwrites_example =
    update-overwrites plain (λ t. t) consumed "tx-1" (set_status verified) table_1 tx_1 gets refl
      (refl, refl) free

finds : get "tx-1" store_1 ≡ ok (some tx_1)
unfolding get
finds = refl

deletes : (delete "tx-1" store_1).1.inner ≡ []
unfolding delete
deletes = refl
