-- ===== src/Types/Error.antt =====
-- crates/ewqwe-openid4vp/src/error.rs
use ewqwe_identity.Prelude.{String}
use ewqwe_identity.Prelude.Result.{Result}

pub data OpenId4vpError : Type 0 where
  not_found expired_transaction bad_request crypto config internal decoding_error :
      String → OpenId4vpError

abbrev pub OpenId4vpResult : Type 0 → Type 0
OpenId4vpResult A = Result OpenId4vpError A
