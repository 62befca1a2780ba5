-- ===== src/Prelude/Sets.antt =====
-- Membership and distinctness of texts, as statements, and the loop that fills a `HashSet`.
use mathlib.Core.Path.{◌≡◌, refl}
use mathlib.Core.Logic.{◌⊎◌, ◌↔◌, inl, inr}
use mathlib.Core.Bool.{true, false}
use mathlib.Core.List.{List, [], ◌∷◌}
use native.Mathlib.Omega.{arith}
use Prim.Native.String.{String}
use text.Mathlib.Text.{◌==◌ as str_eq}
use text.Mathlib.TextEquality.{eq_iff}
use ewqwe_identity.Prelude.Tests.{Bool-cases}
use ewqwe_identity.Prelude.Lists.{contains}

abbrev pub In : String → List String → Type 0
In s [] = ⊥
In s (x ∷ xs) = (x ≡ s) ⊎ In s xs

pub contains→In : (xs : List String) (s : String) → contains xs s ≡ true → In s xs
contains→In [] s h = cc
contains→In (x ∷ xs) s h = elim (Bool-cases (str_eq x s)) [
  | inl e ↦ inl ((eq_iff x s).0 e)
  | inr e ↦ inr (contains→In xs s (rw e at h))
]

pub In→contains : (xs : List String) (s : String) → In s xs → contains xs s ≡ true
In→contains [] s h = absurd h
In→contains (x ∷ xs) s (inl e) = rw ((eq_iff x s).1 e)
In→contains (x ∷ xs) s (inr m) = ground (arith, In→contains xs s m)

pub contains-false : (xs : List String) (s : String) → (contains xs s ≡ false) ↔ ¬ In s xs
contains-false xs s = (
  λ e m. cc (In→contains xs s m),
  λ h. elim (Bool-cases (contains xs s)) [ inl e ↦ absurd (h (contains→In xs s e)) | inr e ↦ e ],
)

-- No text stands twice in the list.
abbrev pub NoDup : List String → Type 0
NoDup [] = Unit
NoDup (x ∷ xs) = (¬ In x xs) × NoDup xs

-- No text stands twice in the list, or in the set that is filled already.
abbrev pub DistinctFrom : List String → List String → Type 0
DistinctFrom seen [] = Unit
DistinctFrom seen (x ∷ xs) = (¬ In x seen) × DistinctFrom (x ∷ seen) xs

DistinctFrom-sub :
    (seen seen' xs : List String)
    → ((s : String) → In s seen' → In s seen)
    → DistinctFrom seen xs
    → DistinctFrom seen' xs
DistinctFrom-sub seen seen' [] sub h = tt
DistinctFrom-sub seen seen' (x ∷ xs) sub (fresh, h) = (
  λ m. fresh (sub x m),
  DistinctFrom-sub (x ∷ seen) (x ∷ seen') xs (λ s. elim [ inl e ↦ inl e | inr m ↦ inr (sub s m) ])
      h,
)

DistinctFrom-fresh :
    (seen xs : List String) (s : String) → DistinctFrom seen xs → In s seen → ¬ In s xs
DistinctFrom-fresh seen [] s h m n = n
DistinctFrom-fresh seen (x ∷ xs) s (fresh, h) m (inl e) = fresh (rw e m)
DistinctFrom-fresh seen (x ∷ xs) s (fresh, h) m (inr n) =
    DistinctFrom-fresh (x ∷ seen) xs s h (inr m) n

pub DistinctFrom→NoDup : (seen xs : List String) → DistinctFrom seen xs → NoDup xs
DistinctFrom→NoDup seen [] h = tt
DistinctFrom→NoDup seen (x ∷ xs) (fresh, h) =
    (DistinctFrom-fresh (x ∷ seen) xs x h (inl refl), DistinctFrom→NoDup (x ∷ seen) xs h)

pub NoDup→DistinctFrom :
    (seen xs : List String)
    → NoDup xs
    → ((s : String) → In s xs → ¬ In s seen)
    → DistinctFrom seen xs
NoDup→DistinctFrom seen [] h apart = tt
NoDup→DistinctFrom seen (x ∷ xs) (fresh, h) apart = (
  apart x (inl refl),
  NoDup→DistinctFrom (x ∷ seen) xs h
      (λ s m. elim [ inl e ↦ fresh (rw e m) | inr n ↦ apart s (inr m) n ]),
)

-- The set after the texts of a list have been inserted.
abbrev pub collect : List String → List String → List String
collect seen [] = seen
collect seen (x ∷ xs) = collect (x ∷ seen) xs

pub In-collect : (seen xs : List String) (s : String) → In s (collect seen xs) → In s xs ⊎ In s seen
In-collect seen [] s m = inr m
In-collect seen (x ∷ xs) s m = elim (In-collect (x ∷ seen) xs s m) [
  | inl n ↦ inl (inr n)
  | inr (inl e) ↦ inl (inl e)
  | inr (inr n) ↦ inr n
]

pub collect-In : (seen xs : List String) (s : String) → In s xs ⊎ In s seen → In s (collect seen xs)
collect-In seen [] s (inl m) = absurd m
collect-In seen [] s (inr m) = m
collect-In seen (x ∷ xs) s (inl (inl e)) = collect-In (x ∷ seen) xs s (inr (inl e))
collect-In seen (x ∷ xs) s (inl (inr m)) = collect-In (x ∷ seen) xs s (inl m)
collect-In seen (x ∷ xs) s (inr m) = collect-In (x ∷ seen) xs s (inr (inr m))
