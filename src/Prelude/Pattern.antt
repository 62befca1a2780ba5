-- ===== src/Prelude/Pattern.antt =====
-- Texts against a pattern: `starts_with`, `contains`, `split`, `trim_start_matches` and
-- `trim_end_matches` of a `&str`, for a pattern that is not empty.
use Prim.Native.Char.{code}
use ewqwe_identity.Prelude.{
  ℕ, zero, suc, ◌-◌, String, Bool, true, false, ◌&&◌, ◌||◌, List, [], ◌∷◌, ◌==◌,
}
use ewqwe_identity.Prelude.Text.{push_front}

unfoldable pub has_prefix : String → String → Bool
has_prefix String.[] s = true
has_prefix (String.◌∷◌ c p) String.[] = false
has_prefix (String.◌∷◌ c p) (String.◌∷◌ d s) = (code d == code c) && has_prefix p s

unfoldable pub text_length : String → ℕ
text_length String.[] = 0
text_length (String.◌∷◌ c s) = suc (text_length s)

unfoldable pub contains_text : String → String → Bool
unfolding has_prefix
contains_text p String.[] = has_prefix p String.[]
contains_text p (String.◌∷◌ c s) = has_prefix p (String.◌∷◌ c s) || contains_text p s

-- The number counts the characters of a match that are still to be passed over.
unfoldable pub split_from : ℕ → String → String → List String
unfolding has_prefix text_length push_front
split_from n p String.[] = String.[] ∷ []
split_from (suc n) p (String.◌∷◌ c s) = split_from n p s
split_from zero p (String.◌∷◌ c s) = elim (has_prefix p (String.◌∷◌ c s)) [
  | true ↦ String.[] ∷ split_from (text_length p - 1) p s
  | false ↦ push_front c (split_from zero p s)
]

unfoldable pub split_text : String → String → List String
unfolding split_from
split_text p s = split_from zero p s

unfoldable pub trim_from : ℕ → String → String → String
unfolding has_prefix text_length
trim_from n p String.[] = String.[]
trim_from (suc n) p (String.◌∷◌ c s) = trim_from n p s
trim_from zero p (String.◌∷◌ c s) = elim (has_prefix p (String.◌∷◌ c s)) [
  | true ↦ trim_from (text_length p - 1) p s
  | false ↦ String.◌∷◌ c s
]

unfoldable pub trim_start_matches : String → String → String
unfolding trim_from
trim_start_matches p s = trim_from zero p s

-- Whether the text is a number of copies of the pattern.
unfoldable pub copies_from : ℕ → String → String → Bool
unfolding has_prefix text_length
copies_from zero p String.[] = true
copies_from (suc n) p String.[] = false
copies_from (suc n) p (String.◌∷◌ c s) = copies_from n p s
copies_from zero p (String.◌∷◌ c s) =
    has_prefix p (String.◌∷◌ c s) && copies_from (text_length p - 1) p s

-- The copies of the pattern at the end are left out.
unfoldable pub trim_end_matches : String → String → String
unfolding copies_from
trim_end_matches p String.[] = String.[]
trim_end_matches p (String.◌∷◌ c s) = elim (copies_from zero p (String.◌∷◌ c s)) [
  | true ↦ String.[]
  | false ↦ String.◌∷◌ c (trim_end_matches p s)
]
