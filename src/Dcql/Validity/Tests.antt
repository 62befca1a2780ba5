-- ===== src/Dcql/Validity/Tests.antt =====
-- Runs of `is_valid`, with the ASCII part of `char::is_alphanumeric`.
use ewqwe_identity.Prelude.{String, ◌≡◌, refl, none, some, List, [], ◌∷◌}
use ewqwe_identity.Prelude.Result.{ok, err}
use ewqwe_identity.Types.{DcqlClaimsQuery, DcqlCredentialQuery, DcqlQuery}
use ewqwe_identity.Dcql.Validity.{Invalid, is_id, is_valid}
use ewqwe_identity.Dcql.Validity.Spec.{IsWellFormed}
use ewqwe_identity.Dcql.Validity.Law.{is_valid_iff}
use ewqwe_identity.Prelude.{◌↔◌}
use ewqwe_identity.Dcql.Validity.Ascii.{ascii_alphanumeric}

abbrev claim : String → DcqlClaimsQuery
claim id = record { id = some id; path = []; values = none; intent_to_retain = none }

abbrev credential : String → List String → DcqlCredentialQuery
credential id refs = record {
  id = id;
  format = "mso_mdoc";
  meta = record { doctype_value = none; vct_values = none; type_values = none };
  claims = some (claim "name" ∷ claim "age" ∷ []);
  claim_sets = some (refs ∷ []);
  multiple = none;
  trusted_authorities = none;
  require_cryptographic_holder_binding = none;
}

abbrev query : List DcqlCredentialQuery → DcqlQuery
query cs = record { credentials = cs; credential_sets = none }

accepts : is_valid ascii_alphanumeric (query (credential "pid_1" ("age" ∷ []) ∷ [])) ≡ ok tt
unfolding is_valid
accepts = refl

refuses_unknown_claim :
    is_valid ascii_alphanumeric (query (credential "pid" ("sex" ∷ []) ∷ []))
    ≡ err (Invalid.unknown_claim_id "pid" "sex")
unfolding is_valid
refuses_unknown_claim = refl

refuses_duplicate :
    is_valid ascii_alphanumeric (query (credential "a" [] ∷ credential "a" [] ∷ []))
    ≡ err (Invalid.duplicate_credential_id "a")
unfolding is_valid
refuses_duplicate = refl

is_valid_iff_example :
    (is_valid ascii_alphanumeric (query (credential "pid_1" ("age" ∷ []) ∷ [])) ≡ ok tt)
    ↔ IsWellFormed (is_id ascii_alphanumeric) (query (credential "pid_1" ("age" ∷ []) ∷ []))
is_valid_iff_example =
    is_valid_iff ascii_alphanumeric (query (credential "pid_1" ("age" ∷ []) ∷ []))
