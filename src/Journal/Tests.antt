-- ===== src/Journal/Tests.antt =====
-- Runs of the journal, with a short stand-in for SHA-256.
use ewqwe_identity.Prelude.{
  ℕ, zero, suc, String, ◌≡◌, ◌⊎◌, ◌↔◌, refl, true, none, some, [], ◌∷◌, ◌<>◌,
}
use ewqwe_identity.Prelude.Result.{ok, err}
use ewqwe_identity.Json.{null}
use ewqwe_identity.Journal.{
  Journal, JournalEntry, Event, Attempt, ChainVerificationResult, cas_exhausted, make_entry,
  append_entry, append_verification, head_of, entries_of, by_created_at,
}
use ewqwe_identity.Journal.Chain.{IsChained, Links}
use ewqwe_identity.Journal.Append.{Appends, stop, write, append_verification-IsChained}
use ewqwe_identity.Journal.Stale.{after_others, IsBusy, append_verification-exhausted}
use ewqwe_identity.Journal.Tamper.{attestations, AllOfLength, CollideFrom, Links-attestations}
use ewqwe_identity.Prelude.Pattern.{text_length}
use ewqwe_identity.Journal.Verify.{verify_chain}
use ewqwe_identity.Journal.Verify.Law.{verify_chain-valid_iff}
use ewqwe_identity.Journal.Verify.Ordered.{append_verification-verify_chain, IsOrdered}

abbrev sha : String → String
sha s = "#" <> s

abbrev shown : ℕ → String
shown n = "n"

abbrev empty : Journal
empty = record { entries = []; heads = [] }

empty-IsChained : IsChained sha empty
unfolding head_of entries_of
empty-IsChained u = refl

abbrev event_of : String → Event
event_of user = record {
  username = user;
  attestation_jwt = "jwt";
  attestation_jti = none;
  client_id = none;
  doc_type = none;
  namespace = none;
  verification_summary = null;
  qrcode_app_user_id = none;
  qrcode_app_user_email = none;
}

abbrev quiet : String → String → Attempt
quiet id time = record { entry_id = id; created_at = time; others = λ j. j }

-- Another writer appends for "bob" before the first write for "alice".
abbrev by_bob : Journal → Journal
by_bob j = (append_entry (make_entry sha (event_of "bob") (quiet "b" "0") none) none j).1

abbrev attempts : ℕ → Attempt
attempts zero = record { entry_id = "a"; created_at = "1"; others = by_bob }
attempts (suc n) = quiet "c" "2"

honest : (m : ℕ) (k : Journal) → Appends sha k ((attempts m).others k)
honest zero k = write (event_of "bob") (quiet "b" "0") none k (stop _)
honest (suc n) k = stop k

append_verification-IsChained_example :
    IsChained sha (append_verification sha (event_of "alice") attempts empty).1
append_verification-IsChained_example =
    append_verification-IsChained sha (event_of "alice") attempts empty honest empty-IsChained

verify_chain-valid_iff_example :
    (result : ChainVerificationResult) × (verify_chain sha shown "bob" (by_bob empty) ≡ ok result)
    × ((result.valid ≡ true) ↔ (
        (by_created_at (entries_of "bob" (by_bob empty).entries) ≡ [])
        ⊎ Links sha "bob" none
            (by_created_at (entries_of "bob" (by_bob empty).entries))
            (head_of "bob" (by_bob empty).heads)))
verify_chain-valid_iff_example = verify_chain-valid_iff sha shown "bob" (by_bob empty)

ordered :
    IsOrdered
      (entries_of "alice" (append_verification sha (event_of "alice") attempts empty).1.entries)
unfolding append_verification append_entry make_entry entries_of head_of
ordered = tt

append_verification-verify_chain_example :
    (result : ChainVerificationResult) × (verify_chain sha shown "alice"
        (append_verification sha (event_of "alice") attempts empty).1
      ≡ ok result)
    × (result.valid ≡ true)
append_verification-verify_chain_example =
    append_verification-verify_chain sha shown (event_of "alice") attempts empty "alice" honest
      empty-IsChained ordered

-- Another writer appends for "alice" in every attempt.
abbrev id_of : ℕ → String
id_of zero = "o"
id_of (suc n) = "o" <> id_of n

abbrev rival : ℕ → Journal → Journal
rival m j =
    let head = head_of "alice" j.heads in
    (append_entry (make_entry sha (event_of "alice") (quiet (id_of m) "0") head) head j).1

abbrev busy : ℕ → Attempt
busy m = record { entry_id = "a"; created_at = "1"; others = rival m }

is_busy : IsBusy sha (event_of "alice") busy 5 0 empty
unfolding append_entry make_entry head_of
is_busy = (refl, (refl, (refl, (refl, (refl, tt)))))

append_verification-exhausted_example :
    append_verification sha (event_of "alice") busy empty
    ≡ (err cas_exhausted, after_others 5 0 busy empty)
append_verification-exhausted_example =
    append_verification-exhausted sha (event_of "alice") busy empty is_busy

abbrev bob_1 : JournalEntry
bob_1 = make_entry sha (event_of "bob") (quiet "b" "0") none

Links-bob : Links sha "bob" none (bob_1 ∷ []) (some bob_1.entry_hash)
unfolding make_entry
Links-bob = (refl, refl, refl)

sized_bob : AllOfLength 4 (bob_1 ∷ [])
unfolding make_entry text_length
sized_bob = (refl, tt)

Links-attestations_example :
    (attestations (bob_1 ∷ []) ≡ attestations (bob_1 ∷ []))
    ⊎ CollideFrom sha "bob" none none (bob_1 ∷ []) (bob_1 ∷ [])
Links-attestations_example =
    Links-attestations sha "bob" 4 (bob_1 ∷ []) (bob_1 ∷ []) (some bob_1.entry_hash) refl sized_bob
      sized_bob Links-bob Links-bob
