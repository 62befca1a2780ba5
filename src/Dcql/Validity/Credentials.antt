-- ===== src/Dcql/Validity/Credentials.antt =====
-- The checks on a whole credential query, and the loop over credential queries.
use ewqwe_identity.Prelude.{
  ℕ, String, ◌≡◌, refl, ◌↔◌, inl, inr, Bool, true, false, Option, none, some, List, [], ◌∷◌, All,
  is_empty, is_some, is_none, ◌&&◌, arith, Option-cases,
}
use ewqwe_identity.Prelude.Sets.{
  In, DistinctFrom, collect, contains-false, In-collect, collect-In, DistinctFrom→NoDup,
  NoDup→DistinctFrom,
}
use ewqwe_identity.Prelude.Result.{ok, >>=-passed}
use ewqwe_identity.Types.{DcqlClaimsQuery, DcqlCredentialQuery, TrustedAuthority}
use ewqwe_identity.Dcql.Validity.{
  is_id, check_claim_ids, all_have_ids, check_claim_sets, check_claims, check_credential,
  check_credentials, authorities_empty,
}
use ewqwe_identity.Dcql.Validity.Spec.{
  claim_ids, credential_ids, RefsIn, NonEmpty, AuthoritiesOk, ClaimSetsOk, ClaimsOk, CredentialOk,
}
use ewqwe_identity.Dcql.Validity.Claims.{
  refuse_if-ok, not-false, check_claim_ids_sound, check_claim_ids_complete, all_have_ids_iff,
  check_ref_sets_iff,
}

-- References that resolve in one list of ids resolve in a larger one.
refs_map :
    (f g refs : List String)
    → ((s : String) → In s f → In s g)
    → All (λ r. In r f) refs
    → All (λ r. In r g) refs
refs_map f g [] sub h = tt
refs_map f g (r ∷ refs) sub h = (sub r h.0, refs_map f g refs sub h.1)

pub RefsIn-map :
    (f g : List String) (sets : List (List String))
    → ((s : String) → In s f → In s g)
    → RefsIn f sets
    → RefsIn g sets
RefsIn-map f g [] sub h = tt
RefsIn-map f g (set ∷ sets) sub h = (refs_map f g set sub h.0, RefsIn-map f g sets sub h.1)

-- The loops start from the empty set, so what they collect is what the list holds.
pub from_collect : (ids : List String) (s : String) → In s (collect [] ids) → In s ids
from_collect ids s m = elim (In-collect [] ids s m) [ inl n ↦ n | inr n ↦ absurd n ]

pub to_collect : (ids : List String) (s : String) → In s ids → In s (collect [] ids)
to_collect ids s m = collect-In [] ids s (inl m)

pub is_empty-false : {A : Type 0} (xs : List A) → (is_empty xs ≡ false) ↔ NonEmpty xs
is_empty-false [] = (λ h. cc, λ h. absurd h)
is_empty-false (x ∷ xs) = (λ h. tt, λ h. refl)

authorities_iff :
    (ta : Option (List TrustedAuthority)) → (authorities_empty ta ≡ false) ↔ AuthoritiesOk ta
authorities_iff none = (λ h. tt, λ h. refl)
authorities_iff (some ta) = is_empty-false ta

check_claim_sets_iff :
    (cred : String) (claims : List DcqlClaimsQuery) (sets : Option (List (List String)))
    → (check_claim_sets cred (collect [] (claim_ids claims)) claims sets ≡ ok tt)
      ↔ ClaimSetsOk claims sets
unfolding check_claim_sets
check_claim_sets_iff cred claims none = (λ h. tt, λ h. refl)
check_claim_sets_iff cred claims (some sets) = (
  λ h.
      let (u, a, k) = >>=-passed (all_have_ids cred claims) _ h in
      (
        (all_have_ids_iff cred claims).0 a,
        RefsIn-map _ _ sets (from_collect _) ((check_ref_sets_iff _ _ sets).0 k),
      ),
  λ h.
      rw ((all_have_ids_iff cred claims).1 h.0)
        ((check_ref_sets_iff _ _ sets).1 (RefsIn-map _ _ sets (to_collect _) h.1)),
)

module _ (is_alphanumeric : ℕ → Bool) where
  abbrev ident : String → Bool
  ident = is_id is_alphanumeric

  claims_iff :
      (cred : DcqlCredentialQuery) (claims : Option (List DcqlClaimsQuery))
      → (((is_some cred.claim_sets && is_none claims) ≡ false)
          × (check_claims is_alphanumeric cred claims ≡ ok tt))
        ↔ ClaimsOk ident claims cred.claim_sets
  unfolding check_claims
  claims_iff cred none = elim (Option-cases cred.claim_sets) [
    | inl e ↦ rw e (λ h. tt, λ h. (refl, refl))
    | inr (sets, e) ↦ rw e (λ h. cc (h.0), λ h. absurd h)
  ]
  claims_iff cred (some claims) = (
    λ h.
        let (seen, a, k) = >>=-passed (check_claim_ids is_alphanumeric cred.id [] claims) _ h.1 in
        let (ids, distinct, e) = check_claim_ids_sound is_alphanumeric cred.id [] claims a in
        (
          ids,
          DistinctFrom→NoDup [] _ distinct,
          (check_claim_sets_iff cred.id claims cred.claim_sets).0 (rw e k),
        ),
    λ h. (
      ground arith,
      rw
          (check_claim_ids_complete is_alphanumeric cred.id [] claims h.0
            (NoDup→DistinctFrom [] _ h.1 (λ s m n. n)))
          ((check_claim_sets_iff cred.id claims cred.claim_sets).1 h.2),
    ),
  )

  check_credential_sound :
      (cred : DcqlCredentialQuery)
      → is_id is_alphanumeric cred.id ≡ true
      → check_credential is_alphanumeric cred ≡ ok tt
      → CredentialOk ident cred
  unfolding check_credential
  check_credential_sound cred id h =
      let (a, h') = refuse_if-ok _ _ _ h in
      let (b, k) = refuse_if-ok _ _ _ h' in
      record {
        id_ok = id;
        authorities_ok = (authorities_iff cred.trusted_authorities).0 a;
        claims_ok = (claims_iff cred cred.claims).0 (b, k);
      }

  check_credential_complete :
      (cred : DcqlCredentialQuery)
      → CredentialOk ident cred
      → check_credential is_alphanumeric cred ≡ ok tt
  unfolding check_credential
  check_credential_complete cred h =
      let (b, k) = (claims_iff cred cred.claims).1 h.claims_ok in
      rw ((authorities_iff cred.trusted_authorities).1 h.authorities_ok, b) k

  pub check_credentials_sound :
      (seen : List String) (creds : List DcqlCredentialQuery) {r : List String}
      → check_credentials is_alphanumeric seen creds ≡ ok r
      → All (CredentialOk ident) creds
        × DistinctFrom seen (credential_ids creds)
        × (collect seen (credential_ids creds) ≡ r)
  unfolding check_credentials
  check_credentials_sound seen [] h = (tt, tt, cc)
  check_credentials_sound seen (cred ∷ creds) h =
      let (a, h1) = refuse_if-ok _ _ _ h in
      let (b, h2) = refuse_if-ok _ _ _ h1 in
      let (u, c, k) = >>=-passed (check_credential is_alphanumeric cred) _ h2 in
      let (oks, distinct, e) = check_credentials_sound (cred.id ∷ seen) creds k in
      (
        (check_credential_sound cred (not-false _ a) c, oks),
        ((contains-false seen cred.id).0 b, distinct),
        e,
      )

  pub check_credentials_complete :
      (seen : List String) (creds : List DcqlCredentialQuery)
      → All (CredentialOk ident) creds
      → DistinctFrom seen (credential_ids creds)
      → check_credentials is_alphanumeric seen creds ≡ ok (collect seen (credential_ids creds))
  unfolding check_credentials
  check_credentials_complete seen [] a b = refl
  check_credentials_complete seen (cred ∷ creds) (a, as') (b, bs) =
      rw (a.id_ok, (contains-false seen cred.id).1 b, check_credential_complete cred a)
        (check_credentials_complete (cred.id ∷ seen) creds as' bs)
