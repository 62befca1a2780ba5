-- ===== src/Prelude/Concat.antt =====
-- When two concatenations are equal, part by part.
use text.Mathlib.TextLemmas.{nil-append, cons-append}
use ewqwe_identity.Prelude.{ℕ, String, ◌<>◌, ◌≡◌, ◌+◌, refl, sym, ap, ◌∙◌, arith}
use ewqwe_identity.Prelude.Pattern.{text_length}

text_length-append : (a b : String) → text_length (a <> b) ≡ text_length a + text_length b
unfolding text_length
text_length-append String.[] b = rw (nil-append b, text_length) (omega arith)
text_length-append (String.◌∷◌ c s) b =
    rw (cons-append c s b, text_length, text_length-append s b) (omega arith)

pub append-cancel_left : (a b c : String) → a <> b ≡ a <> c → b ≡ c
append-cancel_left String.[] b c h = sym (nil-append b) ∙ h ∙ nil-append c
append-cancel_left (String.◌∷◌ x s) b c h =
    append-cancel_left s b c (cc (sym (cons-append x s b) ∙ h ∙ cons-append x s c))

same_front :
    (a a' b b' : String) → text_length a ≡ text_length a' → a <> b ≡ a' <> b' → (a ≡ a') × (b ≡ b')
unfolding text_length
same_front String.[] String.[] b b' n h = (refl, append-cancel_left String.[] b b' h)
same_front String.[] (String.◌∷◌ y t) b b' n h = cc n
same_front (String.◌∷◌ x s) String.[] b b' n h = cc n
same_front (String.◌∷◌ x s) (String.◌∷◌ y t) b b' n h =
    let e : String.◌∷◌ x (s <> b) ≡ String.◌∷◌ y (t <> b') =
      sym (cons-append x s b) ∙ h ∙ cons-append y t b' in
    let (front, back) = same_front s t b b' (cc n) (cc e) in (cc (e, front), back)

-- Two concatenations whose last parts are of one length.
pub append-same_length :
    (a a' b b' : String) → text_length b ≡ text_length b' → a <> b ≡ a' <> b' → (a ≡ a') × (b ≡ b')
append-same_length a a' b b' n h =
    same_front a a' b b'
      (lengths (text_length a) (text_length a') (text_length b) (text_length b') n
        (sym (text_length-append a b) ∙ ap text_length h ∙ text_length-append a' b'))
      h
  where
    lengths : (i j k l : ℕ) → k ≡ l → i + k ≡ j + l → i ≡ j
    lengths i j k l same sum = omega arith
