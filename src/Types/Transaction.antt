-- ===== src/Types/Transaction.antt =====
-- crates/ewqwe-openid4vp/src/types.rs: transactions, and the requests and answers of the service.
use ewqwe_identity.Types.Dcql.{DcqlQuery}
use ewqwe_identity.Types.Protocol.{ProfileId, ClientIdScheme, ResponseMode}
use ewqwe_identity.Prelude.{String, Bool, Option, none, some, List, [], ◌∷◌}
use ewqwe_identity.Prelude.Int.{ℤ, negsuc}
use ewqwe_identity.Json.{Json}

pub data TransactionStatus : Type 0 where
  pending received verified error expired : TransactionStatus

pub record WalletAuthorizationError : Type 0 where
  pub error : String
  pub error_description : Option String
  pub state : Option String

pub record OpenId4vpResponse : Type 0 where
  pub vp_token : String
  pub presentation_submission : Option String
  pub state : String

-- COSE algorithm numbers are `i32`.
pub record MsoMdocVpFormat : Type 0 where
  pub issuerauth_alg_values : Option (List ℤ)
  pub deviceauth_alg_values : Option (List ℤ)

pub record SdJwtVcVpFormat : Type 0 where
  pub sd_jwt_alg_values : Option (List String)
  pub kb_jwt_alg_values : Option (List String)

pub record JwtVcJsonVpFormat : Type 0 where
  pub alg_values : Option (List String)

pub record LdpVcVpFormat : Type 0 where
  pub proof_type_values : Option (List String)
  pub cryptosuite_values : Option (List String)

pub record VpFormats : Type 0 where
  pub mso_mdoc : Option MsoMdocVpFormat
  pub dc_sd_jwt : Option SdJwtVcVpFormat
  pub vc_sd_jwt : Option SdJwtVcVpFormat
  pub jwt_vc_json : Option JwtVcJsonVpFormat
  pub ldp_vc : Option LdpVcVpFormat

pub record ClientMetadata : Type 0 where
  pub client_name : Option String
  pub logo_uri : Option String
  pub vp_formats : Option VpFormats

-- ES256, ES384, ES512
abbrev cose_algs : List ℤ
cose_algs = negsuc 6 ∷ negsuc 34 ∷ negsuc 35 ∷ []

abbrev pub default_client_metadata : ClientMetadata
default_client_metadata = record {
  client_name = some "ewQwe Age Verification Demo";
  logo_uri = none;
  vp_formats = some (record {
    mso_mdoc =
        some (record {
          issuerauth_alg_values = some cose_algs;
          deviceauth_alg_values = some cose_algs;
        });
    dc_sd_jwt = none;
    vc_sd_jwt = none;
    jwt_vc_json = none;
    ldp_vc = none;
  });
}

pub record OpenId4vpTransaction : Type 0 where
  pub id : String
  pub state : String
  pub nonce : String
  pub created_at : ℤ
  pub expires_at : ℤ
  pub status : TransactionStatus
  pub dcql_query : DcqlQuery
  pub client_id : String
  pub client_id_scheme : ClientIdScheme
  pub response_uri : String
  pub response_mode : ResponseMode
  pub profile : ProfileId
  pub wallet_response : Option OpenId4vpResponse
  pub wallet_error : Option WalletAuthorizationError
  pub verification_result : Option Json
  pub error_message : Option String
  pub client_metadata : Option ClientMetadata
  pub transaction_data : Option (List String)

pub record InitTransactionRequest : Type 0 where
  pub dcql_query : Option DcqlQuery
  pub nonce : Option String
  pub state : Option String
  pub client_metadata : Option ClientMetadata
  pub profile : Option ProfileId
  pub credential_type : Option String
  pub transaction_data : Option (List String)

pub record InitTransactionResponse : Type 0 where
  pub transaction_id : String
  pub client_id : String
  pub client_id_scheme : ClientIdScheme
  pub request_uri : String
  pub authorization_request_uri : String
  pub expires_in : ℤ
  pub profile : ProfileId
  pub qr_code_data_url : Option String

pub record TransactionStatusResult : Type 0 where
  pub status : TransactionStatus
  pub expires_in : Option ℤ
  pub authorization_response : Option OpenId4vpResponse
  pub nonce : Option String
  pub wallet_error : Option WalletAuthorizationError
  pub error_message : Option String
  pub transaction_data : Option (List String)

pub record AuthorizationRequestResult : Type 0 where
  pub body : String
  pub content_type : String

pub record VpTokenVerificationResult : Type 0 where
  pub is_valid : Bool
  pub signature_valid : Bool
  pub not_expired : Bool
  pub issuer_trusted : Bool
  pub errors : List String
  pub warnings : List String
  pub claims : Json
  pub doc_type : String
  pub namespace : String
  pub credential_id : Option String
  pub server_nonce : Option String
  pub presentation_nonce : Option String
  pub transaction : Option OpenId4vpTransaction
