-- ===== src/Journal/Verify/Ordered.antt =====
-- A journal that was only appended to, with times that do not go back, is verified as valid.
use ewqwe_identity.Prelude.{ℕ, String, ◌≡◌, refl, sym, ap, ◌∙◌, inr, true, none, List, [], ◌∷◌}
use ewqwe_identity.Prelude.Result.{ok}
use ewqwe_identity.Journal.{
  JournalEntry, Journal, ChainVerificationResult, Event, Attempt, head_of, entries_of,
  by_created_at, not_after, insert_sorted, append_verification,
}
use ewqwe_identity.Journal.Chain.{IsChained, Links}
use ewqwe_identity.Journal.Append.{Appends, append_verification-IsChained}
use ewqwe_identity.Journal.Verify.{verify_chain}
use ewqwe_identity.Journal.Verify.Law.{verify_chain-valid_iff}
use mathlib.Core.Path.{subst}

-- No entry is dated after the next one.
abbrev pub IsOrdered : List JournalEntry → Type 0
IsOrdered [] = Unit
IsOrdered (e ∷ []) = Unit
IsOrdered (e ∷ f ∷ es) = (not_after e f ≡ true) × IsOrdered (f ∷ es)

by_created_at-IsOrdered : (es : List JournalEntry) → IsOrdered es → by_created_at es ≡ es
unfolding by_created_at insert_sorted
by_created_at-IsOrdered [] h = refl
by_created_at-IsOrdered (e ∷ []) h = refl
by_created_at-IsOrdered (e ∷ f ∷ es) (le, h) =
    ap (insert_sorted e) (by_created_at-IsOrdered (f ∷ es) h) ∙ rw (le, insert_sorted) refl

module _ (sha256 : String → String) (shown : ℕ → String) where
  -- From a journal with intact chains, whatever other writers append in between, a user's entries
  -- after `append_verification` are verified as valid, provided that the times of the user's
  -- entries do not go back.
  pub append_verification-verify_chain :
      (event : Event) (attempts : ℕ → Attempt) (j : Journal) (u : String)
      → ((m : ℕ) (k : Journal) → Appends sha256 k ((attempts m).others k))
      → IsChained sha256 j
      → IsOrdered (entries_of u (append_verification sha256 event attempts j).1.entries)
      → (result : ChainVerificationResult) × (verify_chain sha256 shown u
            (append_verification sha256 event attempts j).1
          ≡ ok result)
        × (result.valid ≡ true)
  append_verification-verify_chain event attempts j u honest chained ordered =
      let j' = (append_verification sha256 event attempts j).1 in
      let (result, answer, (to, from)) = verify_chain-valid_iff sha256 shown u j' in
      let links = append_verification-IsChained sha256 event attempts j honest chained u in
      (
        result,
        answer,
        from (
            inr (
              subst (λ es. Links sha256 u none es (head_of u j'.heads))
                (sym (by_created_at-IsOrdered (entries_of u j'.entries) ordered)) links)),
      )
