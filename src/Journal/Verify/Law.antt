-- ===== src/Journal/Verify/Law.antt =====
-- `verify_chain` accepts the intact chains and no others.
use ewqwe_identity.Prelude.{
  ℕ, suc, String, ◌≡◌, ◌⊎◌, ◌↔◌, refl, sym, ◌∙◌, inl, inr, true, str_eq, eq_iff, opt_eq,
  opt_eq-true, opt_eq_refl, str_eq-true, Option, none, some, List, [], ◌∷◌, Bool-cases, false≢true,
}
use ewqwe_identity.Prelude.Result.{ok}
use ewqwe_identity.Journal.{
  JournalEntry, Journal, ChainVerificationResult, head_of, entries_of, by_created_at,
  compute_entry_hash,
}
use ewqwe_identity.Journal.Chain.{Links}
use ewqwe_identity.Journal.Verify.{
  check_head, check_rows, broken, verify_rows, no_rows, verify_chain,
}

module _ (sha256 : String → String) (shown : ℕ → String) where
  check_head-valid :
      (u : String) (first : Option String) (n : ℕ) (last head : Option String)
      → ((check_head sha256 shown u first n last head).valid ≡ true) ↔ (last ≡ head)
  unfolding check_head
  check_head-valid u first n last head = elim (Bool-cases (opt_eq head last)) [
    | inl e ↦ (λ h. sym (opt_eq-true head last e), λ p. rw (e, check_head) refl)
    | inr e ↦ (
      λ h. absurd (false≢true (rw (e, check_head) at h)),
      λ p. absurd (false≢true (sym e ∙ rw p (opt_eq_refl head))),
    )
  ]

  check_rows-valid :
      (u : String) (first head : Option String) (i : ℕ) (prev : Option String)
      (es : List JournalEntry)
      → ((check_rows sha256 shown u first head i prev es).valid ≡ true)
        ↔ Links sha256 u prev es head
  unfolding check_rows broken
  check_rows-valid u first head i prev [] = check_head-valid u first i prev head
  check_rows-valid u first head i prev (e ∷ es) =
      let (to, from) = check_rows-valid u first head (suc i) (some e.entry_hash) es in
      let hash = compute_entry_hash sha256 u prev e.attestation_signature_hash in
      elim (Bool-cases (opt_eq e.previous_hash prev)) [
        | inl p ↦ elim (Bool-cases (str_eq hash e.entry_hash)) [
          | inl q ↦ (
            λ h. (opt_eq-true _ _ p, str_eq-true hash e.entry_hash q, to (rw (p, q) at h)),
            λ (a, b, c). rw (p, q) (from c),
          )
          | inr q ↦ (
            λ h. absurd (false≢true (rw (p, q) at h)),
            λ (a, b, c). absurd (false≢true (sym q ∙ (eq_iff hash e.entry_hash).1 b)),
          )
        ]
        | inr p ↦ (
          λ h. absurd (false≢true (rw p at h)),
          λ (a, b, c). absurd (false≢true (sym p ∙ rw a (opt_eq_refl prev))),
        )
      ]

  verdict :
      (u : String) (j : Journal) (es : List JournalEntry)
      → ((verify_rows sha256 shown u (head_of u j.heads) es).valid ≡ true)
        ↔ ((es ≡ []) ⊎ Links sha256 u none es (head_of u j.heads))
  unfolding verify_rows no_rows
  verdict u j [] = (λ h. inl refl, λ p. refl)
  verdict u j (e ∷ es) =
      let (to, from) = check_rows-valid u (some e.entry_hash) (head_of u j.heads) 0 none (e ∷ es) in
      (λ h. inr (to h), elim [ inl p ↦ cc p | inr l ↦ from l ])

  -- `verify_chain` answers for every user and every journal, and says "valid" exactly when the
  -- user has no entry or the user's entries, in the order of their times, form a chain of correct
  -- hashes that ends at the user's head.
  pub verify_chain-valid_iff :
      (u : String) (j : Journal)
      → (result : ChainVerificationResult) × (verify_chain sha256 shown u j ≡ ok result)
        × ((result.valid ≡ true) ↔ (
            (by_created_at (entries_of u j.entries) ≡ [])
            ⊎ Links sha256 u none (by_created_at (entries_of u j.entries)) (head_of u j.heads)))
  unfolding verify_chain
  verify_chain-valid_iff u j = (
    verify_rows sha256 shown u (head_of u j.heads) (by_created_at (entries_of u j.entries)),
    refl,
    verdict u j (by_created_at (entries_of u j.entries)),
  )
