-- ===== src/Journal.antt =====
-- crates/ewqwe-credential-verifier-server/src/journal: the hash-chained verification journal, with
-- the SQLite back end. The two tables are lists of rows in the order of insertion.
pub mod Chain
pub mod Append
pub mod Verify
pub mod Stale
pub mod Tamper
pub mod Tests
use ewqwe_identity.Prelude.{
  ℕ, zero, suc, ◌+◌, String, Bool, true, false, not, ◌&&◌, ◌||◌, str_eq, opt_eq, Option, none, some,
  get_or, opt_bind, List, [], ◌∷◌, ◌++◌, ◌<>◌, Ordering, str_compare, if◌then◌else◌, length,
}
use ewqwe_identity.Prelude.Result.{Result, ok, err}
use ewqwe_identity.Json.{Json}

-- The two other errors of the source come from the configuration and from the database engine.
pub data JournalError : Type 0 where
  storage : String → JournalError
  stale_head cas_exhausted : JournalError

abbrev pub JournalResult : Type 0 → Type 0
JournalResult A = Result JournalError A

-- `created_at` is the RFC 3339 text that the row holds.
pub record JournalEntry : Type 0 where
  pub id : String
  pub username : String
  pub previous_hash : Option String
  pub entry_hash : String
  pub attestation_signature_hash : String
  pub attestation_jti : Option String
  pub client_id : Option String
  pub doc_type : Option String
  pub namespace : Option String
  pub qrcode_app_user_id : Option String
  pub qrcode_app_user_email : Option String
  pub verification_summary : Json
  pub created_at : String

-- The tables `journal_entries` and `journal_heads`.
pub record Journal : Type 0 where
  pub entries : List JournalEntry
  pub heads : List (String × Option String)

pub record ChainVerificationResult : Type 0 where
  pub username : String
  pub valid : Bool
  pub entries_verified : ℕ
  pub first_entry_hash : Option String
  pub last_entry_hash : Option String
  pub error : Option String

-- SELECT head_hash FROM journal_heads WHERE username = ?1, with `and_then`
unfoldable pub head_of : String → List (String × Option String) → Option String
head_of u [] = none
head_of u ((v, h) ∷ heads) = if str_eq v u then h else head_of u heads

-- INSERT … ON CONFLICT(username) DO UPDATE SET head_hash
unfoldable pub upsert_head :
    String → String → List (String × Option String) → List (String × Option String)
upsert_head u h [] = (u, some h) ∷ []
upsert_head u h ((v, g) ∷ heads) =
    if str_eq v u then (v, some h) ∷ heads else (v, g) ∷ upsert_head u h heads

-- The primary key on `id` and the unique index on `entry_hash`.
unfoldable pub is_taken : JournalEntry → List JournalEntry → Bool
is_taken e [] = false
is_taken e (f ∷ es) = str_eq f.id e.id || str_eq f.entry_hash e.entry_hash || is_taken e es

unfoldable pub get_head : String → Journal → JournalResult (Option String)
unfolding head_of
get_head username j = ok (head_of username j.heads)

-- The insertion and the new head, in one transaction of the database.
unfoldable pub insert_entry : JournalEntry → Journal → Journal
unfolding upsert_head
insert_entry entry j = record {
  entries = j.entries ++ entry ∷ [];
  heads = upsert_head entry.username entry.entry_hash j.heads;
}

unfoldable pub duplicate : JournalError
duplicate = storage "SQLite insert entry: UNIQUE constraint failed"

unfoldable pub append_entry :
    JournalEntry → Option String → Journal → JournalResult (Unit {0}) × Journal
unfolding head_of is_taken insert_entry duplicate
append_entry entry expected_previous_hash j =
    if not (opt_eq (head_of entry.username j.heads) expected_previous_hash)
    then (err stale_head, j)
    else (if is_taken entry j.entries then (err duplicate, j) else (ok tt, insert_entry entry j))

-- WHERE username = ?1
unfoldable pub entries_of : String → List JournalEntry → List JournalEntry
entries_of u [] = []
entries_of u (e ∷ es) = if str_eq e.username u then e ∷ entries_of u es else entries_of u es

-- ORDER BY created_at ASC
unfoldable pub not_after : JournalEntry → JournalEntry → Bool
not_after e f = elim (str_compare e.created_at f.created_at) [ Ordering.gt ↦ false | _ ↦ true ]

unfoldable pub insert_sorted : JournalEntry → List JournalEntry → List JournalEntry
unfolding not_after
insert_sorted e [] = e ∷ []
insert_sorted e (f ∷ es) = if not_after e f then e ∷ f ∷ es else f ∷ insert_sorted e es

unfoldable pub by_created_at : List JournalEntry → List JournalEntry
unfolding insert_sorted
by_created_at [] = []
by_created_at (e ∷ es) = insert_sorted e (by_created_at es)

-- What the caller of `append_verification` passes.
pub record Event : Type 0 where
  pub username : String
  pub attestation_jwt : String
  pub attestation_jti : Option String
  pub client_id : Option String
  pub doc_type : Option String
  pub namespace : Option String
  pub verification_summary : Json
  pub qrcode_app_user_id : Option String
  pub qrcode_app_user_email : Option String

-- What one attempt meets: a fresh UUID, the clock, and what other writers do to the journal
-- between its read of the head and its write.
pub record Attempt : Type 0 where
  pub entry_id : String
  pub created_at : String
  pub others : Journal → Journal

-- The answer of a round that ends the loop.
unfoldable pub settled : JournalResult (Unit {0}) → Bool
settled (err stale_head) = false
settled (ok u) = true
settled (err (storage m)) = true
settled (err cas_exhausted) = true

unfoldable pub max_cas_retries : ℕ
max_cas_retries = 5

-- `sha256` is the hexadecimal SHA-256 of a text's bytes.
module _ (sha256 : String → String) where
  unfoldable pub compute_attestation_signature_hash : String → String
  compute_attestation_signature_hash attestation_jwt = sha256 attestation_jwt

  -- The three updates of the hasher hash the concatenation.
  unfoldable pub compute_entry_hash : String → Option String → String → String
  compute_entry_hash username previous_hash attestation_signature_hash =
      sha256 (username <> get_or previous_hash "" <> attestation_signature_hash)

  unfoldable pub make_entry : Event → Attempt → Option String → JournalEntry
  unfolding compute_attestation_signature_hash compute_entry_hash
  make_entry event attempt current_head =
      let att_hash_input =
        if str_eq event.attestation_jwt ""
        then "qr:" <> event.username <> ":" <> attempt.entry_id
        else event.attestation_jwt in
      let att_hash = compute_attestation_signature_hash att_hash_input in
      record {
        id = attempt.entry_id;
        username = event.username;
        previous_hash = current_head;
        entry_hash = compute_entry_hash event.username current_head att_hash;
        attestation_signature_hash = att_hash;
        attestation_jti = event.attestation_jti;
        client_id = event.client_id;
        doc_type = event.doc_type;
        namespace = event.namespace;
        qrcode_app_user_id = event.qrcode_app_user_id;
        qrcode_app_user_email = event.qrcode_app_user_email;
        verification_summary = event.verification_summary;
        created_at = attempt.created_at;
      }

  -- One round: the head is read, other writers may go first, the entry is written.
  unfoldable pub attempt_append : Event → Attempt → Journal → JournalResult (Unit {0}) × Journal
  unfolding make_entry append_entry head_of
  attempt_append event attempt j =
      let current_head = head_of event.username j.heads in
      append_entry (make_entry event attempt current_head) current_head (attempt.others j)

  -- `for attempt in 0..n`, from attempt `i` on
  unfoldable pub append_loop :
      ℕ → ℕ → Event → (ℕ → Attempt) → Journal → JournalResult (Unit {0}) × Journal
  unfolding attempt_append settled
  append_loop zero i event attempts j = (err cas_exhausted, j)
  append_loop (suc n) i event attempts j =
      let round = attempt_append event (attempts i) j in
      let rest = append_loop n (suc i) event attempts round.1 in
      if settled round.0 then round else rest

  unfoldable pub append_verification :
      Event → (ℕ → Attempt) → Journal → JournalResult (Unit {0}) × Journal
  unfolding append_loop max_cas_retries
  append_verification event attempts j = append_loop max_cas_retries 0 event attempts j
