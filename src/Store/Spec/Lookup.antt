-- ===== src/Store/Spec/Lookup.antt =====
-- What lookups return after each operation.
use ewqwe_identity.Prelude.{
  String, ◌≡◌, refl, ◌∙◌, inl, inr, str_eq, str_eq-true, str_eq-false, eq_iff, none, some, List, [],
  ◌∷◌, arith, Bool-cases, opt_map, if◌then◌else◌, ap,
}
use ewqwe_identity.Prelude.Sets.{In, NoDup}
use ewqwe_identity.Store.Spec.{
  Tx, ids, find_id, find_state, put, remove, modify_id, modify_state, KeepsKeys,
}

pub find_id-put :
    (t : Tx) (us : List Tx) (j : String)
    → find_id j (put t us) ≡ (if str_eq t.id j then some t else find_id j us)
unfolding find_id put
find_id-put t [] j = refl
find_id-put t (u ∷ us) j =
    ground (arith, eq_iff u.id t.id, eq_iff u.id j, eq_iff t.id j, find_id-put t us j)

-- A found transaction has the key that was asked for.
pub find_id-id : (k : String) (us : List Tx) {t : Tx} → find_id k us ≡ some t → t.id ≡ k
unfolding find_id
find_id-id k [] h = cc
find_id-id k (u ∷ us) {t} h = elim (Bool-cases (str_eq u.id k)) [
  | inl e ↦ cc (rw e at h, str_eq-true u.id k e)
  | inr e ↦ find_id-id k us (rw e at h)
]

pub find_state-state : (k : String) (us : List Tx) {t : Tx} → find_state k us ≡ some t → t.state ≡ k
unfolding find_state
find_state-state k [] h = cc
find_state-state k (u ∷ us) {t} h = elim (Bool-cases (str_eq u.state k)) [
  | inl e ↦ cc (rw e at h, str_eq-true u.state k e)
  | inr e ↦ find_state-state k us (rw e at h)
]

In-of_find_state :
    (k : String) (us : List Tx) {t : Tx} → find_state k us ≡ some t → In t.id (ids us)
unfolding find_state
In-of_find_state k [] h = cc
In-of_find_state k (u ∷ us) {t} h = elim (Bool-cases (str_eq u.state k)) [
  | inl e ↦ inl (cc (rw e at h))
  | inr e ↦ inr (In-of_find_state k us (rw e at h))
]

-- What is found by `state` is found by its id.
pub find_id-of_find_state :
    (k : String) (us : List Tx) {t : Tx}
    → NoDup (ids us)
    → find_state k us ≡ some t
    → find_id t.id us ≡ some t
unfolding find_state find_id
find_id-of_find_state k [] d h = cc
find_id-of_find_state k (u ∷ us) {t} (fresh, d) h = elim (Bool-cases (str_eq u.state k)) [
  | inl e ↦ let same : some u ≡ some t = rw e at h in rw ((eq_iff u.id t.id).1 (cc same)) same
  | inr e ↦
      let later : find_state k us ≡ some t = rw e at h in
      rw (str_eq-false u.id t.id (λ p. fresh (rw p (In-of_find_state k us later))))
        (find_id-of_find_state k us d later)
]

not-In-find_id : (k : String) (us : List Tx) → (¬ In k (ids us)) → find_id k us ≡ none
unfolding find_id
not-In-find_id k [] n = refl
not-In-find_id k (u ∷ us) n =
    rw (str_eq-false u.id k (λ e. n (inl e))) (not-In-find_id k us (λ m. n (inr m)))

pub find_id-remove :
    (k j : String) (us : List Tx)
    → NoDup (ids us)
    → find_id j (remove k us) ≡ (if str_eq k j then none else find_id j us)
unfolding find_id remove
find_id-remove k j [] d = ground arith
find_id-remove k j (u ∷ us) (fresh, d) = elim (Bool-cases (str_eq u.id k)) [
  | inl e ↦ rw e (elim (Bool-cases (str_eq k j)) [
    | inl g ↦
        rw g (not-In-find_id j us (λ m. fresh (rw (str_eq-true u.id k e ∙ str_eq-true k j g) m)))
    | inr g ↦ rw (g, str_eq-true u.id k e) (rw g)
  ])
  | inr e ↦ ground (arith, eq_iff u.id k, eq_iff u.id j, eq_iff k j, find_id-remove k j us d)
]

module _ (f : Tx → Tx) (keeps : KeepsKeys f) where
  pub find_id-modify_id :
      (k j : String) (us : List Tx)
      → find_id j (modify_id k f us)
        ≡ (if str_eq k j then opt_map f (find_id j us) else find_id j us)
  unfolding find_id modify_id
  find_id-modify_id k j [] = ground arith
  find_id-modify_id k j (u ∷ us) =
      ground (
        arith,
        eq_iff u.id k,
        eq_iff u.id j,
        eq_iff k j,
        keeps.keeps_id u,
        find_id-modify_id k j us,
      )

-- An operation on a missing key changes nothing.
pub remove-none : (k : String) (us : List Tx) → find_id k us ≡ none → remove k us ≡ us
unfolding find_id remove
remove-none k [] h = refl
remove-none k (u ∷ us) h = elim (Bool-cases (str_eq u.id k)) [
  | inl e ↦ cc (rw e at h)
  | inr e ↦ rw e (ap (λ r. u ∷ r) (remove-none k us (rw e at h)))
]

pub modify_id-none :
    (k : String) (f : Tx → Tx) (us : List Tx) → find_id k us ≡ none → modify_id k f us ≡ us
unfolding find_id modify_id
modify_id-none k f [] h = refl
modify_id-none k f (u ∷ us) h = elim (Bool-cases (str_eq u.id k)) [
  | inl e ↦ cc (rw e at h)
  | inr e ↦ rw e (ap (λ r. u ∷ r) (modify_id-none k f us (rw e at h)))
]

pub modify_state-none :
    (k : String) (f : Tx → Tx) (us : List Tx) → find_state k us ≡ none → modify_state k f us ≡ us
unfolding find_state modify_state
modify_state-none k f [] h = refl
modify_state-none k f (u ∷ us) h = elim (Bool-cases (str_eq u.state k)) [
  | inl e ↦ cc (rw e at h)
  | inr e ↦ rw e (ap (λ r. u ∷ r) (modify_state-none k f us (rw e at h)))
]
