-- ===== src/Dcql/Validity.antt =====
-- `DCQLQuery::is_valid` of crates/ewqwe-openid4vp/src/types.rs. The two `HashSet`s are lists of the
-- texts seen so far. The formatted messages are the constructors of `Invalid`.
pub mod Message
pub mod Spec
mod Claims
mod Credentials
pub mod Law
pub mod Ascii
mod Tests
use Prim.Native.Char.{code}
use ewqwe_identity.Prelude.{
  ℕ, String, Bool, true, false, not, ◌&&◌, ◌||◌, ◌==◌, str_eq, Option, none, some, List, [], ◌∷◌,
  is_empty, is_none, is_some, contains, if◌then◌else◌,
}
use ewqwe_identity.Prelude.Result.{Result, ok, err, ◌>>=◌, ◌>>◌}
use ewqwe_identity.Types.{
  DcqlClaimsQuery, DcqlCredentialQuery, DcqlCredentialSetQuery, DcqlQuery, TrustedAuthority,
}

-- The reasons for which a query is refused, with the ids that the messages quote.
pub data Invalid : Type 0 where
  credentials_empty : Invalid
  bad_credential_id duplicate_credential_id trusted_authorities_empty : String → Invalid
  claim_sets_without_claims : String → Invalid
  bad_claim_id duplicate_claim_id : String → String → Invalid
  claim_without_id : String → Invalid
  unknown_claim_id : String → String → Invalid
  credential_sets_empty : Invalid
  unknown_credential_id : String → Invalid

abbrev pub Check : Type 0 → Type 0
Check A = Result Invalid A

-- An early `return Err(…)` when the test holds.
abbrev pub refuse_if : Bool → Invalid → Check (Unit {0})
refuse_if true e = err e
refuse_if false e = ok tt

-- `for claim in claims { if claim.id.is_none() … }`
pub all_have_ids : String → List DcqlClaimsQuery → Check (Unit {0})
all_have_ids cred [] = ok tt
all_have_ids cred (claim ∷ claims) = do
  refuse_if (is_none claim.id) (claim_without_id cred)
  all_have_ids cred claims

-- The two loops over references: each must be among the ids seen.
pub check_refs : (String → Invalid) → List String → List String → Check (Unit {0})
check_refs e seen [] = ok tt
check_refs e seen (r ∷ refs) = do refuse_if (not (contains seen r)) (e r); check_refs e seen refs

pub check_ref_sets : (String → Invalid) → List String → List (List String) → Check (Unit {0})
check_ref_sets e seen [] = ok tt
check_ref_sets e seen (set ∷ sets) = do check_refs e seen set; check_ref_sets e seen sets

-- `if let Some(claim_sets) = &cred.claim_sets { … }`
pub check_claim_sets :
    String → List String → List DcqlClaimsQuery → Option (List (List String)) → Check (Unit {0})
check_claim_sets cred seen claims none = ok tt
check_claim_sets cred seen claims (some sets) = do
  all_have_ids cred claims
  check_ref_sets (unknown_claim_id cred) seen sets

abbrev pub authorities_empty : Option (List TrustedAuthority) → Bool
authorities_empty none = false
authorities_empty (some ta) = is_empty ta

pub check_set_queries : List String → List DcqlCredentialSetQuery → Check (Unit {0})
check_set_queries seen [] = ok tt
check_set_queries seen (cs ∷ sets) = do
  check_ref_sets unknown_credential_id seen cs.options
  check_set_queries seen sets

pub check_credential_sets : List String → Option (List DcqlCredentialSetQuery) → Check (Unit {0})
check_credential_sets seen none = ok tt
check_credential_sets seen (some sets) = do
  refuse_if (is_empty sets) credential_sets_empty
  check_set_queries seen sets

-- `char::is_alphanumeric` of Rust, by the character's number, stands for a table of Unicode.
module _ (is_alphanumeric : ℕ → Bool) where
  -- `c.is_alphanumeric() || c == '_' || c == '-'`
  pub id_char : ℕ → Bool
  id_char c = is_alphanumeric c || c == b'_' || c == b'-'

  -- `chars().all(…)`
  pub all_id_chars : String → Bool
  all_id_chars String.[] = true
  all_id_chars (String.◌∷◌ c s) = id_char (code c) && all_id_chars s

  unfoldable pub is_id : String → Bool
  unfolding all_id_chars id_char
  is_id s = not (str_eq s "") && all_id_chars s

  -- The loop over `claims` that fills `seen_claim_ids`.
  pub check_claim_ids : String → List String → List DcqlClaimsQuery → Check (List String)
  check_claim_ids cred seen [] = ok seen
  check_claim_ids cred seen (claim ∷ claims) = elim claim.id [
    | none ↦ check_claim_ids cred seen claims
    | some id ↦ do
      refuse_if (not (is_id id)) (bad_claim_id cred id)
      refuse_if (contains seen id) (duplicate_claim_id cred id)
      check_claim_ids cred (id ∷ seen) claims
  ]

  -- `if let Some(claims) = &cred.claims { … }`
  pub check_claims : DcqlCredentialQuery → Option (List DcqlClaimsQuery) → Check (Unit {0})
  check_claims cred none = ok tt
  check_claims cred (some claims) = do
    seen ← check_claim_ids cred.id [] claims
    check_claim_sets cred.id seen claims cred.claim_sets

  -- The part of the loop's body behind the test for a duplicate id.
  pub check_credential : DcqlCredentialQuery → Check (Unit {0})
  check_credential cred = do
    refuse_if (authorities_empty cred.trusted_authorities) (trusted_authorities_empty cred.id)
    refuse_if (is_some cred.claim_sets && is_none cred.claims) (claim_sets_without_claims cred.id)
    check_claims cred cred.claims

  -- The loop over `credentials`, which fills `seen_cred_ids`.
  pub check_credentials : List String → List DcqlCredentialQuery → Check (List String)
  check_credentials seen [] = ok seen
  check_credentials seen (cred ∷ creds) = do
    refuse_if (not (is_id cred.id)) (bad_credential_id cred.id)
    refuse_if (contains seen cred.id) (duplicate_credential_id cred.id)
    check_credential cred
    check_credentials (cred.id ∷ seen) creds

  unfoldable pub is_valid : DcqlQuery → Check (Unit {0})
  unfolding check_credentials check_credential check_claims check_claim_ids is_id
      check_credential_sets check_set_queries check_claim_sets check_ref_sets check_refs
      all_have_ids
  is_valid q = do
    refuse_if (is_empty q.credentials) credentials_empty
    seen ← check_credentials [] q.credentials
    check_credential_sets seen q.credential_sets
