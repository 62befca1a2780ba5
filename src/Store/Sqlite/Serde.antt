-- ===== src/Store/Sqlite/Serde.antt =====
-- What sqlite.rs takes from serde_json and from SQLite.
use ewqwe_identity.Prelude.{String, ◌≡◌, List}
use ewqwe_identity.Prelude.{All}
use ewqwe_identity.Prelude.Result.{Result, ok}
use ewqwe_identity.Store.Spec.{Tx}

-- `Text` is what the column `data` holds. `serde_json::to_string` and `from_str` at
-- `OpenID4VPTransaction`, and the text of SQLite's error for a second row with one state.
pub record Codec (Text : Type 0) : Type 0 where
  pub to_string : Tx → Result String Text
  pub from_str : Text → Result String Tx
  pub unique_violation : String

module _ {Text : Type 0} (c : Codec Text) (text : Tx → Text) where
  -- The transaction is written as its text, and the text is read back as the transaction. Not every
  -- transaction has this: a `verification_result` of `null` is read back as none.
  abbrev pub ReadsBack : Tx → Type 0
  ReadsBack t = (c.to_string t ≡ ok (text t)) × (c.from_str (text t) ≡ ok t)

  abbrev pub AllReadBack : List Tx → Type 0
  AllReadBack = All ReadsBack
