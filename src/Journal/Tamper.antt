-- ===== src/Journal/Tamper.antt =====
-- Two accepted chains that end in one head hold the same attestations.
use ewqwe_identity.Prelude.{
  ℕ, String, ◌<>◌, ◌≡◌, ◌⊎◌, refl, sym, ap, ◌∙◌, inl, inr, str_eq, str_eq-true, eq_refl, Option,
  none, some, get_or, is_some, List, [], ◌∷◌, Bool-cases, false≢true, length, All,
}
use ewqwe_identity.Prelude.Pattern.{text_length}
use ewqwe_identity.Prelude.Concat.{append-cancel_left, append-same_length}
use ewqwe_identity.Prelude.Result.{some-injective}
use ewqwe_identity.Journal.{JournalEntry, compute_entry_hash}
use ewqwe_identity.Journal.Chain.{Links}

abbrev pub attestations : List JournalEntry → List String
attestations [] = []
attestations (e ∷ es) = e.attestation_signature_hash ∷ attestations es

-- The attestation hashes are texts of one length, as the hexadecimal digits of SHA-256 are.
abbrev pub AllOfLength : ℕ → List JournalEntry → Type 0
AllOfLength n = All (λ (e : JournalEntry). text_length e.attestation_signature_hash ≡ n)

-- The text of an entry: the user, the hash before it, and its own attestation hash.
abbrev pub entry_text : String → Option String → JournalEntry → String
entry_text u before e = u <> (get_or before "" <> e.attestation_signature_hash)

module _ (sha256 : String → String) where
  -- At some place the two chains have entries with different texts and one SHA-256.
  abbrev pub CollideFrom :
      String → Option String → Option String → List JournalEntry → List JournalEntry → Type 0
  CollideFrom u p q (e ∷ es) (f ∷ fs) =
      ((¬ (entry_text u p e ≡ entry_text u q f))
        × (sha256 (entry_text u p e) ≡ sha256 (entry_text u q f)))
      ⊎ CollideFrom u (some e.entry_hash) (some f.entry_hash) es fs
  CollideFrom u p q _ _ = ⊥

  same_before : (p q : Option String) → is_some p ≡ is_some q → get_or p "" ≡ get_or q "" → p ≡ q
  same_before none none s h = refl
  same_before none (some b) s h = absurd (false≢true s)
  same_before (some a) none s h = absurd (false≢true (sym s))
  same_before (some a) (some b) s h = ap some h

  same_inputs :
      (u : String) (p q : Option String) (e f : JournalEntry)
      → is_some p ≡ is_some q
      → text_length e.attestation_signature_hash ≡ text_length f.attestation_signature_hash
      → entry_text u p e ≡ entry_text u q f
      → (p ≡ q) × (e.attestation_signature_hash ≡ f.attestation_signature_hash)
  same_inputs u p q e f s n h =
      let (before, here) =
        append-same_length (get_or p "") (get_or q "") e.attestation_signature_hash
          f.attestation_signature_hash n
          (append-cancel_left u (get_or p "" <> e.attestation_signature_hash)
            (get_or q "" <> f.attestation_signature_hash) h) in
      (same_before p q s before, here)

  agree :
      (u : String) (n : ℕ) (es fs : List JournalEntry) (p q last : Option String)
      → is_some p ≡ is_some q
      → length es ≡ length fs
      → AllOfLength n es
      → AllOfLength n fs
      → Links sha256 u p es last
      → Links sha256 u q fs last
      → ((p ≡ q) × (attestations es ≡ attestations fs)) ⊎ CollideFrom u p q es fs
  unfolding compute_entry_hash
  agree u n [] [] p q last s m a b l k = inl (l ∙ sym k, refl)
  agree u n [] (f ∷ fs) p q last s m a b l k = cc m
  agree u n (e ∷ es) [] p q last s m a b l k = cc m
  agree u n (e ∷ es) (f ∷ fs) p q last s m (a, as') (b, bs) (l, h, ls) (k, g, ks) =
      elim (agree u n es fs (some e.entry_hash) (some f.entry_hash) last refl (cc m) as' bs ls ks) [
        | inr c ↦ inr (inr c)
        | inl (same, rest) ↦ elim (Bool-cases (str_eq (entry_text u p e) (entry_text u q f))) [
          | inl t ↦
              let (before, here) =
                same_inputs u p q e f s (a ∙ sym b)
                  (str_eq-true (entry_text u p e) (entry_text u q f) t) in
              inl (before, rw (here, rest) refl)
          | inr t ↦ inr (
              inl (
                λ i. false≢true (sym t ∙ rw i (eq_refl (entry_text u q f))),
                h ∙ some-injective same ∙ sym g,
              ))
        ]
      ]

  -- When two lists of as many entries, whose attestation hashes are all of one length, are both
  -- intact chains of a user that end in one head, they hold the same attestation hashes in the same
  -- order, or else at some place the texts that were hashed for their entries differ and have one
  -- SHA-256.
  pub Links-attestations :
      (u : String) (n : ℕ) (es fs : List JournalEntry) (head : Option String)
      → length es ≡ length fs
      → AllOfLength n es
      → AllOfLength n fs
      → Links sha256 u none es head
      → Links sha256 u none fs head
      → (attestations es ≡ attestations fs) ⊎ CollideFrom u none none es fs
  Links-attestations u n es fs head m a b l k =
      elim (agree u n es fs none none head refl m a b l k) [
        | inl (p, same) ↦ inl same
        | inr c ↦ inr c
      ]
