-- ===== src/Prelude/Text.antt =====
-- Texts as the crates take them apart: `split`, `splitn(2, …)`, `contains` and counting, by characters.
use Prim.Native.Char.{Char, code}
use ewqwe_identity.Prelude.{
  ℕ, suc, arith, String, ◌≡◌, refl, Bool, true, false, ◌||◌, List, [], ◌∷◌, ◌++◌, ◌<>◌, inl, inr,
  Bool-cases, if◌then◌else◌, ◌==◌,
}
use text.Mathlib.TextLemmas.{nil-append, cons-append}

-- The text of one character.
abbrev pub one : Char → String
one c = String.◌∷◌ c String.[]

unfoldable pub has_char : ℕ → String → Bool
has_char d String.[] = false
has_char d (String.◌∷◌ c s) = (code c == d) || has_char d s

-- `s.chars().filter(|&c| c == d).count()`
unfoldable pub count_char : ℕ → String → ℕ
count_char d String.[] = 0
count_char d (String.◌∷◌ c s) = let rest = count_char d s in if code c == d then suc rest else rest

unfoldable pub push_front : Char → List String → List String
push_front c [] = one c ∷ []
push_front c (p ∷ ps) = String.◌∷◌ c p ∷ ps

-- `s.split(d).collect()`
unfoldable pub split : ℕ → String → List String
unfolding push_front
split d String.[] = String.[] ∷ []
split d (String.◌∷◌ c s) =
    let rest = split d s in if code c == d then String.[] ∷ rest else push_front c rest

-- `s.splitn(2, d)`, with an empty second part where there is none
unfoldable pub split_once : ℕ → String → String × String
split_once d String.[] = (String.[], String.[])
split_once d (String.◌∷◌ c s) =
    let rest = split_once d s in
    if code c == d then (String.[], s) else (String.◌∷◌ c rest.0, rest.1)

eqb_refl : (n : ℕ) → (n == n) ≡ true
eqb_refl n = ground arith

pub or-false : (a b : Bool) → a || b ≡ false → (a ≡ false) × (b ≡ false)
or-false true b h = cc h
or-false false b h = (refl, h)

split_whole : (d : ℕ) (s : String) → has_char d s ≡ false → split d s ≡ s ∷ []
unfolding split has_char push_front
split_whole d String.[] h = refl
split_whole d (String.◌∷◌ c s) h =
    let (here, later) = or-false (code c == d) (has_char d s) h in
    rw (here, split_whole d s later, split) refl

split-cons : (d : ℕ) (s : String) → (p : String) × (ps : List String) × (split d s ≡ p ∷ ps)
unfolding split push_front
split-cons d String.[] = (String.[], [], refl)
split-cons d (String.◌∷◌ c s) =
    let (p, ps, e) = split-cons d s in
    elim (Bool-cases (code c == d)) [
      | inl b ↦ (String.[], split d s, rw (b, split) refl)
      | inr b ↦ (String.◌∷◌ c p, ps, rw (b, e, split) refl)
    ]

-- A last part without the separator is the last of the split.
pub split-last_part :
    (sep : Char) (s part : String)
    → has_char (code sep) part ≡ false
    → split (code sep) (s <> String.◌∷◌ sep part) ≡ split (code sep) s ++ (part ∷ [])
unfolding split
split-last_part sep String.[] part h =
    rw (nil-append (String.◌∷◌ sep part), eqb_refl (code sep), split, split_whole (code sep) part h)
      refl
split-last_part sep (String.◌∷◌ c s) part h =
    let (p, ps, e) = split-cons (code sep) s in
    elim (Bool-cases (code c == code sep)) [
      | inl b ↦
          rw (cons-append c s (String.◌∷◌ sep part), b, split-last_part sep s part h, split) refl
      | inr b ↦
          rw (cons-append c s (String.◌∷◌ sep part), b, split-last_part sep s part h, e, split) refl
    ]

-- What stands behind the second part does not move the first separator.
pub split_once-append :
    (sep : ℕ) (s more : String)
    → has_char sep s ≡ true
    → split_once sep (s <> more) ≡ ((split_once sep s).0, (split_once sep s).1 <> more)
unfolding split_once has_char
split_once-append sep String.[] more h = cc h
split_once-append sep (String.◌∷◌ c s) more h = elim (Bool-cases (code c == sep)) [
  | inl e ↦ rw (cons-append c s more, e, split_once) refl
  | inr e ↦
      rw (cons-append c s more, e, split_once, split_once-append sep s more (rw (e, has_char) at h))
        refl
]

pub has_char-append :
    (d : ℕ) (s more : String) → has_char d s ≡ true → has_char d (s <> more) ≡ true
unfolding has_char
has_char-append d String.[] more h = cc h
has_char-append d (String.◌∷◌ c s) more h = elim (Bool-cases (code c == d)) [
  | inl e ↦ rw (cons-append c s more, e, has_char) refl
  | inr e ↦
      rw (cons-append c s more, e, has_char) (has_char-append d s more (rw (e, has_char) at h))
]
