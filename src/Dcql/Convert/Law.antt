-- ===== src/Dcql/Convert/Law.antt =====
-- What the conversion makes of a definition, and of a path in bracket notation.
use Prim.Native.Char.{code}
use text.Mathlib.TextLemmas.{nil-append, cons-append}
use ewqwe_identity.Prelude.{
  zero, String, ◌<>◌, ◌≡◌, refl, Bool, true, false, ◌||◌, ◌&&◌, some, [], ◌∷◌, ◌==◌,
}
use ewqwe_identity.Prelude.Text.{has_char, push_front, or-false}
use ewqwe_identity.Prelude.Pattern.{
  has_prefix, contains_text, split_from, split_text, trim_from, trim_start_matches, copies_from,
  trim_end_matches,
}
use ewqwe_identity.Types.{key}
use ewqwe_identity.Dcql.Convert.{
  extract_namespace_from_path, extract_claim_id_from_path, convert_path, namespace_part, last_of,
  bracket_path,
}

-- `']['` before a text, and `']`.
abbrev pub separated : String → String
separated r = String.◌∷◌ "'" (String.◌∷◌ "]" (String.◌∷◌ "[" (String.◌∷◌ "'" r)))

abbrev pub closing : String
closing = String.◌∷◌ "'" (String.◌∷◌ "]" String.[])

-- `$['ns']['elem']`
abbrev pub bracketed : String → String → String
bracketed ns elem =
    String.◌∷◌ "$" (String.◌∷◌ "[" (String.◌∷◌ "'" (ns <> separated (elem <> closing))))

abbrev pub NoQuote : String → Type 0
NoQuote s = has_char b'\'' s ≡ false

-- The separator is no prefix of a text whose first character is no quote.
split-part :
    (ns r : String) → NoQuote ns → split_text "']['" (ns <> separated r) ≡ ns ∷ split_text "']['" r
unfolding split_text split_from has_prefix has_char push_front
split-part String.[] r h = rw (nil-append (separated r)) refl
split-part (String.◌∷◌ c s) r h =
    let (here, later) = or-false (code c == b'\'') (has_char b'\'' s) h in
    rw
      (
        cons-append c s (separated r),
        here,
        split-part s r later,
        split_text,
        split_from,
        has_prefix,
      )
      refl

split-last :
    (elem : String) → NoQuote elem → split_text "']['" (elem <> closing) ≡ (elem <> closing) ∷ []
unfolding split_text split_from has_prefix has_char push_front
split-last String.[] h = rw (nil-append closing) refl
split-last (String.◌∷◌ c s) h =
    let (here, later) = or-false (code c == b'\'') (has_char b'\'' s) h in
    rw (cons-append c s closing, here, split-last s later, split_text, split_from, has_prefix) refl

no_second_bracket :
    (ns r : String) → has_char b']' ns ≡ false → has_prefix "]['" (ns <> separated r) ≡ false
unfolding has_prefix has_char
no_second_bracket String.[] r h = rw (nil-append (separated r)) refl
no_second_bracket (String.◌∷◌ c s) r h =
    let (here, later) = or-false (code c == b']') (has_char b']' s) h in
    rw (cons-append c s (separated r), here, has_prefix) refl

split-bracketed :
    (ns elem : String)
    → NoQuote ns
    → has_char b']' ns ≡ false
    → NoQuote elem
    → split_text "']['" (bracketed ns elem)
      ≡ String.◌∷◌ "$" (String.◌∷◌ "[" (String.◌∷◌ "'" ns)) ∷ (elem <> closing) ∷ []
unfolding split_text split_from has_prefix push_front
split-bracketed ns elem h b k =
    rw
      (
        no_second_bracket ns (elem <> closing) b,
        split-part ns (elem <> closing) h,
        split-last elem k,
        split_text,
        split_from,
        has_prefix,
      )
      refl

and-false : (a b : Bool) → b ≡ false → a && b ≡ false
and-false true b h = h
and-false false b h = refl

no_opening : (s : String) → NoQuote s → has_prefix "$['" s ≡ false
unfolding has_prefix has_char
no_opening String.[] h = refl
no_opening (String.◌∷◌ c String.[]) h = and-false (code c == b'$') false refl
no_opening (String.◌∷◌ c (String.◌∷◌ d String.[])) h =
    and-false (code c == b'$') _ (and-false (code d == b'[') false refl)
no_opening (String.◌∷◌ c (String.◌∷◌ d (String.◌∷◌ e s))) h =
    let (h1, later) = or-false (code c == b'\'') _ h in
    let (h2, last) = or-false (code d == b'\'') _ later in
    let (here, rest) = or-false (code e == b'\'') (has_char b'\'' s) last in
    and-false (code c == b'$') _ (and-false (code d == b'[') _ (rw here refl))

trim_start-NoQuote : (ns : String) → NoQuote ns → trim_from zero "$['" ns ≡ ns
unfolding trim_from
trim_start-NoQuote String.[] h = refl
trim_start-NoQuote (String.◌∷◌ c s) h = rw (no_opening (String.◌∷◌ c s) h, trim_from) refl

trim_end-NoQuote : (s : String) → NoQuote s → trim_end_matches "'" s ≡ s
unfolding trim_end_matches copies_from has_prefix has_char
trim_end-NoQuote String.[] h = refl
trim_end-NoQuote (String.◌∷◌ c s) h =
    let (here, later) = or-false (code c == b'\'') (has_char b'\'' s) h in
    rw (here, trim_end-NoQuote s later, trim_end_matches, copies_from, has_prefix) refl

trim_end-closing : (s : String) → NoQuote s → trim_end_matches "']" (s <> closing) ≡ s
unfolding trim_end_matches copies_from has_prefix has_char
trim_end-closing String.[] h = refl
trim_end-closing (String.◌∷◌ c s) h =
    let (here, later) = or-false (code c == b'\'') (has_char b'\'' s) h in
    rw
      (
        cons-append c s closing,
        here,
        trim_end-closing s later,
        trim_end_matches,
        copies_from,
        has_prefix,
      )
      refl

or-true : (a b : Bool) → b ≡ true → a || b ≡ true
or-true true b h = refl
or-true false b h = h

contains-separated : (ns r : String) → contains_text "']['" (ns <> separated r) ≡ true
unfolding contains_text has_prefix
contains-separated String.[] r = rw (nil-append (separated r)) refl
contains-separated (String.◌∷◌ c s) r = rw (cons-append c s (separated r)) (
    or-true (has_prefix "']['" (String.◌∷◌ c (s <> separated r)))
      (contains_text "']['" (s <> separated r)) (contains-separated s r))

contains-bracketed : (ns elem : String) → contains_text "']['" (bracketed ns elem) ≡ true
unfolding contains_text has_prefix
contains-bracketed ns elem =
    or-true (has_prefix "']['" (String.◌∷◌ "'" (ns <> separated (elem <> closing)))) _
      (contains-separated ns (elem <> closing))

namespace-bracketed :
    (ns elem : String)
    → NoQuote ns
    → has_char b']' ns ≡ false
    → NoQuote elem
    → extract_namespace_from_path (bracketed ns elem) ≡ some ns
unfolding extract_namespace_from_path namespace_part has_prefix trim_start_matches trim_from
namespace-bracketed ns elem h b k =
    rw (split-bracketed ns elem h b k, trim_start-NoQuote ns h, trim_end-NoQuote ns h) refl

claim_id-bracketed :
    (ns elem : String)
    → NoQuote ns
    → has_char b']' ns ≡ false
    → NoQuote elem
    → extract_claim_id_from_path (bracketed ns elem) ≡ some elem
unfolding extract_claim_id_from_path last_of
claim_id-bracketed ns elem h b k =
    rw
      (
        contains-bracketed ns elem,
        split-bracketed ns elem h b k,
        trim_end-closing elem k,
        trim_end-NoQuote elem k,
      )
      refl

-- A path `$['ns']['elem']` whose namespace has no quote and no closing bracket, and whose element has
-- no quote, gives back the namespace and the element, and becomes the path of these two keys in an
-- mdoc query.
pub convert_path-bracketed :
    (ns elem : String)
    → NoQuote ns
    → has_char b']' ns ≡ false
    → NoQuote elem
    → (extract_namespace_from_path (bracketed ns elem) ≡ some ns)
      × (extract_claim_id_from_path (bracketed ns elem) ≡ some elem)
      × (convert_path "mso_mdoc" (bracketed ns elem) [] ≡ key ns ∷ key elem ∷ [])
unfolding convert_path bracket_path
convert_path-bracketed ns elem h b k =
    let first = namespace-bracketed ns elem h b k in
    let second = claim_id-bracketed ns elem h b k in (first, second, rw (first, second) refl)
