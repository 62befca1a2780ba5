-- ===== src/Journal/Verify.antt =====
-- `verify_chain` of the SQLite back end.
pub mod Law
pub mod Ordered
use ewqwe_identity.Prelude.{
  ℕ, ◌+◌, suc, String, Bool, true, false, not, str_eq, opt_eq, Option, none, some, List, [], ◌∷◌,
  ◌<>◌, if◌then◌else◌, length, is_empty,
}
use ewqwe_identity.Prelude.Result.{ok}
use ewqwe_identity.Journal.{
  JournalEntry, Journal, JournalResult, ChainVerificationResult, head_of, entries_of, by_created_at,
  compute_entry_hash,
}

-- `shown` is the decimal text of a number.
module _ (sha256 : String → String) (shown : ℕ → String) where
  -- The verdict at the end of the loop, on the head row.
  unfoldable pub check_head :
      String → Option String → ℕ → Option String → Option String → ChainVerificationResult
  check_head username first count last_hash stored_head =
      if not (opt_eq stored_head last_hash)
      then record {
        username = username;
        valid = false;
        entries_verified = count;
        first_entry_hash = first;
        last_entry_hash = last_hash;
        error = some "head hash does not match the last entry hash";
      }
      else record {
        username = username;
        valid = true;
        entries_verified = count;
        first_entry_hash = first;
        last_entry_hash = last_hash;
        error = none;
      }

  broken : String → Option String → ℕ → Option String → String → ChainVerificationResult
  broken username first i last_hash message = record {
    username = username;
    valid = false;
    entries_verified = i;
    first_entry_hash = first;
    last_entry_hash = last_hash;
    error = some message;
  }

  -- The loop from position `i` on. `expected_previous` and `last_hash` are equal throughout.
  unfoldable pub check_rows :
      String
      → Option String
      → Option String
      → ℕ
      → Option String
      → List JournalEntry
      → ChainVerificationResult
  unfolding check_head broken compute_entry_hash
  check_rows username first stored_head i expected_previous [] =
      check_head username first i expected_previous stored_head
  check_rows username first stored_head i expected_previous (e ∷ es) =
      let rest = check_rows username first stored_head (suc i) (some e.entry_hash) es in
      if not (opt_eq e.previous_hash expected_previous)
      then broken username first i expected_previous
          ("entry " <> e.id <> ": previous_hash pointer mismatch at position " <> shown i)
      else (if not (
            str_eq
              (compute_entry_hash sha256 username expected_previous e.attestation_signature_hash)
              e.entry_hash)
          then broken username first i expected_previous (
              "entry "
              <> e.id
              <> ": recomputed entry_hash does not match stored value at position "
              <> shown i)
          else rest)

  no_rows : String → ChainVerificationResult
  no_rows username = record {
    username = username;
    valid = true;
    entries_verified = 0;
    first_entry_hash = none;
    last_entry_hash = none;
    error = none;
  }

  unfoldable pub verify_rows : String → Option String → List JournalEntry → ChainVerificationResult
  unfolding no_rows check_rows
  verify_rows username stored_head [] = no_rows username
  verify_rows username stored_head (e ∷ es) =
      check_rows username (some e.entry_hash) stored_head 0 none (e ∷ es)

  unfoldable pub verify_chain : String → Journal → JournalResult ChainVerificationResult
  unfolding verify_rows head_of entries_of by_created_at
  verify_chain username j = ok (
      verify_rows username (head_of username j.heads)
        (by_created_at (entries_of username j.entries)))
