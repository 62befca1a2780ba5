-- ===== src/Journal/Stale.antt =====
-- The bounded retry of `append_verification`.
use ewqwe_identity.Prelude.{ℕ, zero, suc, String, ◌≡◌, refl, false, opt_eq}
use ewqwe_identity.Prelude.Result.{err}
use ewqwe_identity.Journal.{
  Journal, stale_head, cas_exhausted, Event, Attempt, head_of, append_entry, make_entry,
  attempt_append, settled, append_loop, append_verification, max_cas_retries,
}

-- The journal after other writers went first in a number of attempts.
abbrev pub after_others : ℕ → ℕ → (ℕ → Attempt) → Journal → Journal
after_others zero i attempts j = j
after_others (suc n) i attempts j = after_others n (suc i) attempts ((attempts i).others j)

module _ (sha256 : String → String) (event : Event) (attempts : ℕ → Attempt) where
  -- In each of a number of attempts, from a given one on, other writers move the user's head.
  abbrev pub IsBusy : ℕ → ℕ → Journal → Type 0
  IsBusy zero i j = Unit
  IsBusy (suc n) i j =
      (opt_eq (head_of event.username ((attempts i).others j).heads)
          (head_of event.username j.heads)
        ≡ false)
      × IsBusy n (suc i) ((attempts i).others j)

  stale_round :
      (i : ℕ) (j : Journal)
      → opt_eq
          (head_of event.username ((attempts i).others j).heads)
          (head_of event.username j.heads)
        ≡ false
      → attempt_append sha256 event (attempts i) j ≡ (err stale_head, (attempts i).others j)
  unfolding attempt_append append_entry make_entry
  stale_round i j e = rw (e, append_entry) refl

  stale_loop :
      (n i : ℕ) (j : Journal)
      → IsBusy n i j
      → append_loop sha256 n i event attempts j ≡ (err cas_exhausted, after_others n i attempts j)
  unfolding append_loop settled
  stale_loop zero i j busy = refl
  stale_loop (suc n) i j (moves, busy) =
      rw (stale_round i j moves) (stale_loop n (suc i) ((attempts i).others j) busy)

  -- When in each of five attempts other writers move the user's head between the read and the write,
  -- the call gives up after the fifth, four retries, and the journal holds just what the others
  -- wrote.
  pub append_verification-exhausted :
      (j : Journal)
      → IsBusy 5 0 j
      → append_verification sha256 event attempts j
        ≡ (err cas_exhausted, after_others 5 0 attempts j)
  unfolding append_verification max_cas_retries
  append_verification-exhausted j busy = stale_loop 5 0 j busy
