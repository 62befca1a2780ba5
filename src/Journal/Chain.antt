-- ===== src/Journal/Chain.antt =====
-- What an intact chain is, and that it grows at its end.

use ewqwe_identity.Prelude.{
  String, ◌≡◌, refl, sym, ap, ◌∙◌, inl, inr, str_eq, str_eq-true, str_eq-false, eq_refl, Option,
  none, some, List, [], ◌∷◌, ◌++◌, Bool-cases, if◌then◌else◌, false≢true,
}
use ewqwe_identity.Journal.{
  JournalEntry, Journal, head_of, upsert_head, entries_of, insert_entry, compute_entry_hash,
}

module _ (sha256 : String → String) where
  -- Each entry points at the one before it and has the hash of its place, from the hash `prev` to
  -- the hash `last`.
  abbrev pub Links : String → Option String → List JournalEntry → Option String → Type 0
  Links u prev [] last = prev ≡ last
  Links u prev (e ∷ es) last =
      (e.previous_hash ≡ prev)
      × (compute_entry_hash sha256 u prev e.attestation_signature_hash ≡ e.entry_hash)
      × Links u (some e.entry_hash) es last

  -- The entries of every user form a chain from nothing to the user's head.
  abbrev pub IsChained : Journal → Type 0
  IsChained j = (u : String) → Links u none (entries_of u j.entries) (head_of u j.heads)

  Links-snoc :
      (u : String) (prev last : Option String) (es : List JournalEntry) (e : JournalEntry)
      → Links u prev es last
      → e.previous_hash ≡ last
      → compute_entry_hash sha256 u last e.attestation_signature_hash ≡ e.entry_hash
      → Links u prev (es ++ e ∷ []) (some e.entry_hash)
  Links-snoc u prev last [] e l p h = (p ∙ sym l, rw l h, refl)
  Links-snoc u prev last (f ∷ es) e (q, g, l) p h =
      (q, g, Links-snoc u (some f.entry_hash) last es e l p h)

entries_of-snoc :
    (u : String) (es : List JournalEntry) (e : JournalEntry)
    → entries_of u (es ++ e ∷ [])
      ≡ (if str_eq e.username u then entries_of u es ++ e ∷ [] else entries_of u es)
unfolding entries_of
entries_of-snoc u [] e = refl
entries_of-snoc u (f ∷ es) e = elim (Bool-cases (str_eq e.username u)) [
  | inl a ↦ elim (Bool-cases (str_eq f.username u)) [
    | inl b ↦ rw (entries_of-snoc u es e, a, b) refl
    | inr b ↦ rw (entries_of-snoc u es e, a, b) refl
  ]
  | inr a ↦ elim (Bool-cases (str_eq f.username u)) [
    | inl b ↦ rw (entries_of-snoc u es e, a, b) refl
    | inr b ↦ rw (entries_of-snoc u es e, a, b) refl
  ]
]

head_of-upsert_head :
    (u v h : String) (heads : List (String × Option String))
    → head_of u (upsert_head v h heads) ≡ (if str_eq v u then some h else head_of u heads)
unfolding head_of upsert_head
head_of-upsert_head u v h [] = refl
head_of-upsert_head u v h ((w, g) ∷ heads) = elim (Bool-cases (str_eq w v)) [
  | inl a ↦
      rw (a, sym (str_eq-true w v a))
        (elim (Bool-cases (str_eq w u)) [ inl b ↦ rw b refl | inr b ↦ rw b refl ])
  | inr a ↦
      rw (a, head_of-upsert_head u v h heads)
        (elim (Bool-cases (str_eq w u)) [
          | inl b ↦
              rw
                (
                  b,
                  str_eq-false v u
                      (λ p. false≢true (sym a ∙ rw (str_eq-true w u b, p) (eq_refl u))),
                )
                refl
          | inr b ↦ rw b refl
        ])
]

-- An entry that points at its user's head and has the hash of that place extends the chain.
pub insert_entry-IsChained :
    (sha256 : String → String) (j : Journal) (e : JournalEntry)
    → IsChained sha256 j
    → e.previous_hash ≡ head_of e.username j.heads
    → compute_entry_hash sha256 e.username e.previous_hash e.attestation_signature_hash
      ≡ e.entry_hash
    → IsChained sha256 (insert_entry e j)
unfolding insert_entry
insert_entry-IsChained sha256 j e chained p h u =
    rw (entries_of-snoc u j.entries e, head_of-upsert_head u e.username e.entry_hash j.heads)
      (elim (Bool-cases (str_eq e.username u)) [
        | inl mine ↦
            let own = str_eq-true e.username u mine in
            rw mine (
              Links-snoc sha256 u none (head_of u j.heads) (entries_of u j.entries) e (chained u)
                (p ∙ ap (λ v. head_of v j.heads) own)
                (ap
                    (λ v.
                      compute_entry_hash sha256 v (head_of v j.heads) e.attestation_signature_hash)
                    (sym own)
                  ∙ ap (λ q. compute_entry_hash sha256 e.username q e.attestation_signature_hash)
                      (sym p)
                  ∙ h))
        | inr other ↦ rw other (chained u)
      ])
