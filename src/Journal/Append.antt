-- ===== src/Journal/Append.antt =====
-- Appends, whatever other writers do in between, keep every user's chain intact.

use ewqwe_identity.Prelude.{
  ℕ, zero, suc, String, ◌≡◌, refl, sym, inl, inr, true, false, opt_eq, opt_eq-true, Option,
  Bool-cases,
}
use ewqwe_identity.Prelude.Result.{ok, err}
use ewqwe_identity.Journal.{
  JournalEntry, Journal, JournalResult, stale_head, duplicate, Event, Attempt, head_of, is_taken,
  insert_entry, append_entry, make_entry, attempt_append, settled, append_loop, append_verification,
  max_cas_retries,
}
use ewqwe_identity.Journal.Chain.{IsChained, insert_entry-IsChained}

-- What `append_entry` does on each of its branches: the head moved, a row is in the way, or the
-- entry is inserted behind the expected head.
pub data Outcome (e : JournalEntry) (expected : Option String) (j : Journal)
    (r : JournalResult (Unit {0}) × Journal) : Type 0 where
  moved :
      opt_eq (head_of e.username j.heads) expected ≡ false
      → r ≡ (err stale_head, j)
      → Outcome e expected j r
  refused :
      head_of e.username j.heads ≡ expected
      → is_taken e j.entries ≡ true
      → r ≡ (err duplicate, j)
      → Outcome e expected j r
  inserted :
      head_of e.username j.heads ≡ expected
      → is_taken e j.entries ≡ false
      → r ≡ (ok tt, insert_entry e j)
      → Outcome e expected j r

pub append_entry-Outcome :
    (e : JournalEntry) (expected : Option String) (j : Journal)
    → Outcome e expected j (append_entry e expected j)
unfolding append_entry
append_entry-Outcome e expected j =
    elim (Bool-cases (opt_eq (head_of e.username j.heads) expected)) [
      | inl same ↦ elim (Bool-cases (is_taken e j.entries)) [
        | inl clash ↦
            refused (opt_eq-true _ expected same) clash (rw (same, clash, append_entry) refl)
        | inr free ↦
            inserted (opt_eq-true _ expected same) free (rw (same, free, append_entry) refl)
      ]
      | inr other ↦ moved other (rw (other, append_entry) refl)
    ]

module _ (sha256 : String → String) where
  -- What any number of writers do to a journal: each step is one write of an entry that a writer
  -- made for the head that it had read, which may be stale by then.
  pub data Appends : Journal → Journal → Type 0 where
    stop : (j : Journal) → Appends j j
    write :
        (event : Event) (attempt : Attempt) (read_head : Option String) (j : Journal) {j' : Journal}
        → Appends (append_entry (make_entry sha256 event attempt read_head) read_head j).1 j'
        → Appends j j'

  write-IsChained :
      (event : Event) (attempt : Attempt) (read_head : Option String) (j : Journal)
      → IsChained sha256 j
      → IsChained sha256 (append_entry (make_entry sha256 event attempt read_head) read_head j).1
  unfolding make_entry
  write-IsChained event attempt read_head j chained =
      let e = make_entry sha256 event attempt read_head in
      elim (append_entry-Outcome e read_head j) [
        | moved head r ↦ rw r chained
        | refused head clash r ↦ rw r chained
        | inserted head free r ↦ rw r (insert_entry-IsChained sha256 j e chained (sym head) refl)
      ]

  -- From a journal with intact chains every sequence of writes, stale ones included, leads to a
  -- journal with intact chains.
  pub Appends-IsChained : (j j' : Journal) → Appends j j' → IsChained sha256 j → IsChained sha256 j'
  Appends-IsChained j j' (stop _) chained = chained
  Appends-IsChained j j' (write event attempt read_head _ rest) chained =
      Appends-IsChained _ j' rest (write-IsChained event attempt read_head j chained)

  Appends-trans : (i j k : Journal) → Appends i j → Appends j k → Appends i k
  Appends-trans i j k (stop _) after = after
  Appends-trans i j k (write event attempt read_head _ rest) after =
      write event attempt read_head i (Appends-trans _ j k rest after)

  attempt_append-Appends :
      (event : Event) (attempt : Attempt) (j : Journal)
      → Appends j (attempt.others j)
      → Appends j (attempt_append sha256 event attempt j).1
  unfolding attempt_append
  attempt_append-Appends event attempt j before =
      Appends-trans j (attempt.others j) _ before
        (write event attempt (head_of event.username j.heads) (attempt.others j) (stop _))

  append_loop-Appends :
      (n i : ℕ) (event : Event) (attempts : ℕ → Attempt) (j : Journal)
      → ((m : ℕ) (k : Journal) → Appends k ((attempts m).others k))
      → Appends j (append_loop sha256 n i event attempts j).1
  unfolding append_loop
  append_loop-Appends zero i event attempts j honest = stop j
  append_loop-Appends (suc n) i event attempts j honest =
      let round = attempt_append sha256 event (attempts i) j in
      let here = attempt_append-Appends event (attempts i) j (honest i j) in
      let rest = append_loop-Appends n (suc i) event attempts round.1 honest in
      elim (Bool-cases (settled round.0)) [
        | inl done ↦ rw done here
        | inr again ↦ rw again (Appends-trans j round.1 _ here rest)
      ]

  -- Whatever other writers do between the reads and the writes of `append_verification`, a journal
  -- with intact chains is left with intact chains, whether the call succeeds or not.
  pub append_verification-IsChained :
      (event : Event) (attempts : ℕ → Attempt) (j : Journal)
      → ((m : ℕ) (k : Journal) → Appends k ((attempts m).others k))
      → IsChained sha256 j
      → IsChained sha256 (append_verification sha256 event attempts j).1
  unfolding append_verification
  append_verification-IsChained event attempts j honest chained =
      Appends-IsChained j _ (append_loop-Appends max_cas_retries 0 event attempts j honest) chained
