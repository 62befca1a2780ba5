-- ===== src/Dcql/Validity/Claims.antt =====
-- The checks on one credential query, loop by loop: what each accepts.
use ewqwe_identity.Prelude.{
  ℕ, String, ◌≡◌, refl, ◌↔◌, inl, inr, Bool, true, false, not, List, [], ◌∷◌, All, arith, contains,
  Option-cases,
}
use ewqwe_identity.Prelude.Sets.{
  In, DistinctFrom, collect, contains→In, In→contains, contains-false,
}
use ewqwe_identity.Prelude.Result.{Result, ok, ◌>>◌, >>=-passed}
use ewqwe_identity.Types.{DcqlClaimsQuery}
use ewqwe_identity.Dcql.Validity.{
  Invalid, refuse_if, is_id, check_claim_ids, all_have_ids, check_refs, check_ref_sets,
}
use ewqwe_identity.Dcql.Validity.Spec.{claim_ids, IsSome, RefsIn}

pub refuse_if-ok :
    {A : Type 0} (b : Bool) (e : Invalid) (k : Result Invalid A) {a : A}
    → (refuse_if b e >> k) ≡ ok a
    → (b ≡ false) × (k ≡ ok a)
refuse_if-ok true e k h = cc
refuse_if-ok false e k h = (refl, h)

pub not-false : (b : Bool) → not b ≡ false → b ≡ true
not-false true h = refl
not-false false h = cc

module _ (is_alphanumeric : ℕ → Bool) where
  abbrev ident : String → Bool
  ident = is_id is_alphanumeric

  step_sound :
      (cred id : String) (seen : List String) (claims : List DcqlClaimsQuery) {r : List String}
      → (do
        refuse_if (not (ident id)) (Invalid.bad_claim_id cred id)
        refuse_if (contains seen id) (Invalid.duplicate_claim_id cred id)
        check_claim_ids is_alphanumeric cred (id ∷ seen) claims)
        ≡ ok r
      → (ident id ≡ true)
        × (¬ In id seen)
        × (check_claim_ids is_alphanumeric cred (id ∷ seen) claims ≡ ok r)
  step_sound cred id seen claims h =
      let (a, h') = refuse_if-ok _ _ _ h in
      let (b, k) = refuse_if-ok _ _ _ h' in (not-false _ a, (contains-false seen id).0 b, k)

  pub check_claim_ids_sound :
      (cred : String) (seen : List String) (claims : List DcqlClaimsQuery) {r : List String}
      → check_claim_ids is_alphanumeric cred seen claims ≡ ok r
      → All (λ id. ident id ≡ true) (claim_ids claims)
        × DistinctFrom seen (claim_ids claims)
        × (collect seen (claim_ids claims) ≡ r)
  unfolding check_claim_ids
  check_claim_ids_sound cred seen [] h = (tt, tt, ground arith)
  check_claim_ids_sound cred seen (claim ∷ claims) {r} h = elim (Option-cases claim.id) [
    | inl e ↦ rw e (check_claim_ids_sound cred seen claims (rw e at h))
    | inr (id, e) ↦
        let (a, b, k) = step_sound cred id seen claims (rw e at h) in
        let (as', bs, es) = check_claim_ids_sound cred (id ∷ seen) claims k in
        rw e ((a, as'), (b, bs), es)
  ]

  pub check_claim_ids_complete :
      (cred : String) (seen : List String) (claims : List DcqlClaimsQuery)
      → All (λ id. ident id ≡ true) (claim_ids claims)
      → DistinctFrom seen (claim_ids claims)
      → check_claim_ids is_alphanumeric cred seen claims ≡ ok (collect seen (claim_ids claims))
  unfolding check_claim_ids
  check_claim_ids_complete cred seen [] a b = refl
  check_claim_ids_complete cred seen (claim ∷ claims) a b = elim (Option-cases claim.id) [
    | inl e ↦ rw e (check_claim_ids_complete cred seen claims (rw e at a) (rw e at b))
    | inr (id, e) ↦
        let (a0, as') : All (λ i. ident i ≡ true) (id ∷ claim_ids claims) = rw e at a in
        let (b0, bs) : DistinctFrom seen (id ∷ claim_ids claims) = rw e at b in
        rw e (
          rw (a0, (contains-false seen id).1 b0)
            (check_claim_ids_complete cred (id ∷ seen) claims as' bs))
  ]

pub all_have_ids_iff :
    (cred : String) (claims : List DcqlClaimsQuery)
    → (all_have_ids cred claims ≡ ok tt) ↔ All (λ c. IsSome c.id) claims
unfolding all_have_ids
all_have_ids_iff cred [] = (λ h. tt, λ h. refl)
all_have_ids_iff cred (claim ∷ claims) = elim (Option-cases claim.id) [
  | inl e ↦ rw e (λ h. cc, λ h. absurd h.0)
  | inr (id, e) ↦
      rw e
        (λ h. (tt, (all_have_ids_iff cred claims).0 h), λ h. (all_have_ids_iff cred claims).1 h.1)
]

pub check_refs_iff :
    (e : String → Invalid) (seen refs : List String)
    → (check_refs e seen refs ≡ ok tt) ↔ All (λ r. In r seen) refs
unfolding check_refs
check_refs_iff e seen [] = (λ h. tt, λ h. refl)
check_refs_iff e seen (r ∷ refs) = (
  λ h.
      let (a, k) = refuse_if-ok _ _ _ h in
      (contains→In seen r (not-false _ a), (check_refs_iff e seen refs).0 k),
  λ h. rw (In→contains seen r h.0) ((check_refs_iff e seen refs).1 h.1),
)

pub check_ref_sets_iff :
    (e : String → Invalid) (seen : List String) (sets : List (List String))
    → (check_ref_sets e seen sets ≡ ok tt) ↔ RefsIn seen sets
unfolding check_ref_sets
check_ref_sets_iff e seen [] = (λ h. tt, λ h. refl)
check_ref_sets_iff e seen (set ∷ sets) = (
  λ h.
      let (u, a, k) = >>=-passed (check_refs e seen set) _ h in
      ((check_refs_iff e seen set).0 a, (check_ref_sets_iff e seen sets).0 k),
  λ h. rw ((check_refs_iff e seen set).1 h.0) ((check_ref_sets_iff e seen sets).1 h.1),
)
