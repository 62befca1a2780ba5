-- ===== src/Vp/Parse/Tests.antt =====
-- A token with one SD-JWT presentation, from the parser to the decision.
use ewqwe_identity.Prelude.{String, ◌≡◌, refl, true, some, none, [], ◌∷◌}
use ewqwe_identity.Prelude.Int.{pos}
use ewqwe_identity.Prelude.Text.{split, split_once}
use ewqwe_identity.Prelude.Result.{ok, err}
use ewqwe_identity.Json.{str, obj}
use ewqwe_identity.Store.Tests.{tx_1}
use ewqwe_identity.SdJwt.Tests.{codec, jose, bound, unbound, claims_1, payload_1}
use ewqwe_identity.SdJwt.Decode.{decode_json, second}
use ewqwe_identity.SdJwt.Keys.{es256, load_cert, load_intermediates, leaf_key}
use ewqwe_identity.SdJwt.Verify.{last_kb_jwt}
use ewqwe_identity.SdJwt.Verify.Law.{IssuedBy}
use ewqwe_identity.Mdoc.Tests.{mdoc_library}
use ewqwe_identity.Vp.{Verified, verify_vp_token_against_cas}
use ewqwe_identity.Vp.Parse.{Readers, checks}

abbrev pub readers_of : String → Readers
readers_of raw = record {
  dcql_token = λ text. some (("pid", str raw ∷ []) ∷ []);
  token_of_text = λ text. err "no token";
  token_of_value = λ value. err "no token";
  codec = codec;
  jose = jose;
  mdoc = mdoc_library;
}

abbrev verified_1 : Verified
verified_1 = record {
  claims = obj claims_1;
  doc_type = "pid";
  namespace = "pid";
  result = record {
    is_valid = true;
    signature_valid = true;
    not_expired = true;
    issuer_trusted = true;
    errors = [];
    warnings = [];
  };
  credential_id = some "pid";
}

accepts_token :
    verify_vp_token_against_cas
      (checks (readers_of bound) [] [] none (λ t. none) (pos 0))
      "{}"
      (some tx_1)
      none
    ≡ ok verified_1
unfolding verify_vp_token_against_cas checks
accepts_token = refl

pub no_kb_jwt : last_kb_jwt (split b'~' (split_once b'~' unbound).1) ≡ none
unfolding last_kb_jwt split split_once
no_kb_jwt = refl

pub issued : IssuedBy jose [] (split_once b'~' unbound).0 payload_1
unfolding split_once load_cert load_intermediates leaf_key decode_json second split
issued = (
  record { alg = es256; x5c = some ("leaf" ∷ []) },
  "leaf",
  [],
  "leaf",
  [],
  "issuer key",
  refl,
  refl,
  refl,
  refl,
  refl,
  refl,
  refl,
)
