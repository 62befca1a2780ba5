-- ===== src/Dcql/Validity/Message.antt =====
-- The texts of the errors of `DCQLQuery::is_valid`; `quoted` is `{:?}` on a text.
use ewqwe_identity.Prelude.{String, ◌<>◌}
use ewqwe_identity.Dcql.Validity.{
  Invalid, credentials_empty, bad_credential_id, duplicate_credential_id, trusted_authorities_empty,
  claim_sets_without_claims, bad_claim_id, duplicate_claim_id, claim_without_id, unknown_claim_id,
  credential_sets_empty, unknown_credential_id,
}

unfoldable pub message : (String → String) → Invalid → String
message quoted credentials_empty = "DCQL query 'credentials' must be non-empty"
message quoted (bad_credential_id id) =
    "Credential query id "
    <> quoted id
    <> " must be a non-empty alphanumeric/underscore/hyphen string"
message quoted (duplicate_credential_id id) =
    "Duplicate credential query id " <> quoted id <> " in 'credentials'"
message quoted (trusted_authorities_empty id) =
    "Credential query " <> quoted id <> ": 'trusted_authorities' must be non-empty when present"
message quoted (claim_sets_without_claims id) =
    "Credential query " <> quoted id <> ": 'claim_sets' must not be present when 'claims' is absent"
message quoted (bad_claim_id id claim) =
    "Credential query "
    <> quoted id
    <> ": claim id "
    <> quoted claim
    <> " must be a non-empty alphanumeric/underscore/hyphen string"
message quoted (duplicate_claim_id id claim) =
    "Credential query " <> quoted id <> ": duplicate claim id " <> quoted claim
message quoted (claim_without_id id) =
    "Credential query "
    <> quoted id
    <> ": all claims must have an 'id' when 'claim_sets' is present"
message quoted (unknown_claim_id id claim) =
    "Credential query "
    <> quoted id
    <> ": 'claim_sets' references unknown claim id "
    <> quoted claim
message quoted credential_sets_empty = "'credential_sets' must be non-empty when present"
message quoted (unknown_credential_id id) =
    "'credential_sets' option references unknown credential query id " <> quoted id
