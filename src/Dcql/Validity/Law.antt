-- ===== src/Dcql/Validity/Law.antt =====
-- `is_valid` decides the specification.
use ewqwe_identity.Prelude.{ℕ, String, ◌≡◌, refl, ◌↔◌, Bool, Option, none, some, List, [], ◌∷◌, All}
use ewqwe_identity.Prelude.Sets.{DistinctFrom→NoDup, NoDup→DistinctFrom, collect}
use ewqwe_identity.Prelude.Result.{ok, >>=-passed}
use ewqwe_identity.Types.{DcqlCredentialSetQuery, DcqlQuery}
use ewqwe_identity.Dcql.Validity.{
  is_id, is_valid, check_credentials, check_set_queries, check_credential_sets,
}
use ewqwe_identity.Dcql.Validity.Spec.{RefsIn, SetQueriesOk, IsWellFormed}
use ewqwe_identity.Dcql.Validity.Claims.{refuse_if-ok, check_ref_sets_iff}
use ewqwe_identity.Dcql.Validity.Credentials.{
  is_empty-false, RefsIn-map, from_collect, to_collect, check_credentials_sound,
  check_credentials_complete,
}

set_queries_iff :
    (ids : List String) (sets : List DcqlCredentialSetQuery)
    → (check_set_queries (collect [] ids) sets ≡ ok tt) ↔ All (λ cs. RefsIn ids cs.options) sets
unfolding check_set_queries
set_queries_iff ids [] = (λ h. tt, λ h. refl)
set_queries_iff ids (cs ∷ sets) = (
  λ h.
      let (u, a, k) = >>=-passed _ _ h in
      (
        RefsIn-map _ _ cs.options (from_collect ids) ((check_ref_sets_iff _ _ cs.options).0 a),
        (set_queries_iff ids sets).0 k,
      ),
  λ h.
      rw ((check_ref_sets_iff _ _ cs.options).1 (RefsIn-map _ _ cs.options (to_collect ids) h.0))
        ((set_queries_iff ids sets).1 h.1),
)

credential_sets_iff :
    (ids : List String) (sets : Option (List DcqlCredentialSetQuery))
    → (check_credential_sets (collect [] ids) sets ≡ ok tt) ↔ SetQueriesOk ids sets
unfolding check_credential_sets
credential_sets_iff ids none = (λ h. tt, λ h. refl)
credential_sets_iff ids (some sets) = (
  λ h.
      let (a, k) = refuse_if-ok _ _ _ h in
      ((is_empty-false sets).0 a, (set_queries_iff ids sets).0 k),
  λ h. rw ((is_empty-false sets).1 h.0) ((set_queries_iff ids sets).1 h.1),
)

-- A query is accepted exactly when it is well formed: some credential query, distinct ids of
-- permitted characters, no empty list of authorities, claim sets only over claims that all carry
-- distinct known ids, and credential sets, if given, non-empty and over known ids.
pub is_valid_iff :
    (is_alphanumeric : ℕ → Bool) (q : DcqlQuery)
    → (is_valid is_alphanumeric q ≡ ok tt) ↔ IsWellFormed (is_id is_alphanumeric) q
unfolding is_valid
is_valid_iff is_alphanumeric q = (
  λ h.
      let (a, h1) = refuse_if-ok _ _ _ h in
      let (seen, b, k) = >>=-passed (check_credentials is_alphanumeric [] q.credentials) _ h1 in
      let (oks, distinct, e) = check_credentials_sound is_alphanumeric [] q.credentials b in
      record {
        some_credential = (is_empty-false q.credentials).0 a;
        each_credential = oks;
        distinct = DistinctFrom→NoDup [] _ distinct;
        sets_ok = (credential_sets_iff _ q.credential_sets).0 (rw e k);
      },
  λ h.
      rw
        (
          (is_empty-false q.credentials).1 h.some_credential,
          check_credentials_complete is_alphanumeric [] q.credentials h.each_credential
              (NoDup→DistinctFrom [] _ h.distinct (λ s m n. n)),
        )
        ((credential_sets_iff _ q.credential_sets).1 h.sets_ok),
)
