-- ===== src/Dcql/Validity/Spec.antt =====
-- What OpenID4VP section 6 asks of a DCQL query, said without reference to the order of the checks.
use ewqwe_identity.Prelude.{String, ◌≡◌, Bool, true, Option, none, some, List, [], ◌∷◌, All}
use ewqwe_identity.Prelude.Sets.{In, NoDup}
use ewqwe_identity.Types.{
  DcqlClaimsQuery, DcqlCredentialQuery, DcqlCredentialSetQuery, DcqlQuery, TrustedAuthority,
}

-- The ids that the claims of a query carry, in order.
abbrev pub push_id : Option String → List String → List String
push_id none ids = ids
push_id (some id) ids = id ∷ ids

abbrev pub claim_ids : List DcqlClaimsQuery → List String
claim_ids [] = []
claim_ids (c ∷ cs) = push_id c.id (claim_ids cs)

abbrev pub credential_ids : List DcqlCredentialQuery → List String
credential_ids [] = []
credential_ids (c ∷ cs) = c.id ∷ credential_ids cs

abbrev pub IsSome {ℓ} : {A : Type ℓ} → Option A → Type 0
IsSome none = ⊥
IsSome (some a) = Unit

-- Every reference is among the ids.
abbrev pub RefsIn : List String → List (List String) → Type 0
RefsIn ids sets = All (All (λ r. In r ids)) sets

abbrev pub NonEmpty {ℓ} : {A : Type ℓ} → List A → Type 0
NonEmpty [] = ⊥
NonEmpty (a ∷ as') = Unit

abbrev pub AuthoritiesOk : Option (List TrustedAuthority) → Type 0
AuthoritiesOk none = Unit
AuthoritiesOk (some ta) = NonEmpty ta

abbrev pub ClaimSetsOk : List DcqlClaimsQuery → Option (List (List String)) → Type 0
ClaimSetsOk claims none = Unit
ClaimSetsOk claims (some sets) = All (λ c. IsSome c.id) claims × RefsIn (claim_ids claims) sets

abbrev pub SetQueriesOk : List String → Option (List DcqlCredentialSetQuery) → Type 0
SetQueriesOk ids none = Unit
SetQueriesOk ids (some sets) = NonEmpty sets × All (λ cs. RefsIn ids cs.options) sets

module _ (is_id : String → Bool) where
  -- Claim sets need claims; claim ids are well formed and distinct; claim sets name known ids.
  abbrev pub ClaimsOk : Option (List DcqlClaimsQuery) → Option (List (List String)) → Type 0
  ClaimsOk none none = Unit
  ClaimsOk none (some sets) = ⊥
  ClaimsOk (some claims) sets =
      All (λ id. is_id id ≡ true) (claim_ids claims)
      × NoDup (claim_ids claims)
      × ClaimSetsOk claims sets

  pub record CredentialOk (c : DcqlCredentialQuery) : Type 0 where
    pub id_ok : is_id c.id ≡ true
    pub authorities_ok : AuthoritiesOk c.trusted_authorities
    pub claims_ok : ClaimsOk c.claims c.claim_sets

  pub record IsWellFormed (q : DcqlQuery) : Type 0 where
    pub some_credential : NonEmpty q.credentials
    pub each_credential : All CredentialOk q.credentials
    pub distinct : NoDup (credential_ids q.credentials)
    pub sets_ok : SetQueriesOk (credential_ids q.credentials) q.credential_sets
