-- ===== src/Store/Spec/Overwrite.antt =====
-- A transaction that is read, changed and written back is a change in place.
use mathlib.Core.Path.{subst}
use ewqwe_identity.Prelude.{
  String, ◌≡◌, refl, sym, ap, ◌∙◌, inl, inr, Bool, true, false, str_eq, str_eq-false, eq_iff, some,
  List, [], ◌∷◌, Bool-cases, if◌then◌else◌,
}
use ewqwe_identity.Prelude.Sets.{In, NoDup}
use ewqwe_identity.Store.Spec.Lookup.{find_id-put}
use ewqwe_identity.Store.Spec.{
  Tx, ids, states, Unique, KeepsKeys, find_id, find_state, put, clash, modify_id, modify_state,
}

fresh-clash : (t : Tx) (us : List Tx) → (¬ In t.state (states us)) → clash t us ≡ false
unfolding clash
fresh-clash t [] n = refl
fresh-clash t (u ∷ us) n = elim (Bool-cases (str_eq u.id t.id)) [
  | inl e ↦ rw e (fresh-clash t us (λ m. n (inr m)))
  | inr e ↦
      rw (e, str_eq-false u.state t.state (λ p. n (inl p))) (fresh-clash t us (λ m. n (inr m)))
]

In-of_find_id :
    (k : String) (us : List Tx) {t : Tx} → find_id k us ≡ some t → In t.state (states us)
unfolding find_id
In-of_find_id k [] h = cc
In-of_find_id k (u ∷ us) {t} h = elim (Bool-cases (str_eq u.id k)) [
  | inl e ↦ inl (cc (rw e at h))
  | inr e ↦ inr (In-of_find_id k us (rw e at h))
]

-- A stored transaction clashes with none, whatever is changed of it but its keys.
pub clash-found :
    (k : String) (f : Tx → Tx) (us : List Tx) {t : Tx}
    → KeepsKeys f
    → t.id ≡ k
    → Unique us
    → find_id k us ≡ some t
    → clash (f t) us ≡ false
unfolding find_id clash
clash-found k f [] keeps own h found = cc
clash-found k f (u ∷ us) {t} keeps own h found = elim (Bool-cases (str_eq u.id k)) [
  | inl e ↦
      let same : some u ≡ some t = rw e at found in
      let here : u ≡ t = cc same in
      rw (keeps.keeps_id t, own, e)
        (fresh-clash (f t) us (λ m. h.unique_states.0 (rw (here, sym (keeps.keeps_state t)) m)))
  | inr e ↦
      let later : find_id k us ≡ some t = rw e at found in
      let other =
        str_eq-false u.state t.state (λ p. h.unique_states.0 (rw p (In-of_find_id k us later))) in
      rw (keeps.keeps_id t, keeps.keeps_state t, own, e, other)
        (clash-found k f us keeps own
          (record { unique_ids = h.unique_ids.1; unique_states = h.unique_states.1 }) later)
]

pub put-modify_id :
    (k : String) (f : Tx → Tx) (us : List Tx) {t : Tx}
    → KeepsKeys f
    → t.id ≡ k
    → find_id k us ≡ some t
    → put (f t) us ≡ modify_id k f us
unfolding find_id put modify_id
put-modify_id k f [] keeps own h = cc
put-modify_id k f (u ∷ us) {t} keeps own h =
    let test : (b : Bool) → str_eq u.id k ≡ b → str_eq u.id (f t).id ≡ b =
      λ b e. ap (str_eq u.id) (keeps.keeps_id t ∙ own) ∙ e in
    elim (Bool-cases (str_eq u.id k)) [
      | inl e ↦
          let same : some u ≡ some t = rw e at h in
          let here : u ≡ t = cc same in rw (test true e, e) (ap (λ r. f r ∷ us) (sym here))
      | inr e ↦ rw (test false e, e) (ap (λ r. u ∷ r) (put-modify_id k f us keeps own (rw e at h)))
    ]

pub In-ids-find_state :
    (k : String) (us : List Tx) {t : Tx} → find_state k us ≡ some t → In t.id (ids us)
unfolding find_state
In-ids-find_state k [] h = cc
In-ids-find_state k (u ∷ us) {t} h = elim (Bool-cases (str_eq u.state k)) [
  | inl e ↦ inl (cc (rw e at h))
  | inr e ↦ inr (In-ids-find_state k us (rw e at h))
]

pub put-modify_state :
    (k : String) (f : Tx → Tx) (us : List Tx) {t : Tx}
    → KeepsKeys f
    → NoDup (ids us)
    → find_state k us ≡ some t
    → put (f t) us ≡ modify_state k f us
unfolding find_state put modify_state
put-modify_state k f [] keeps d h = cc
put-modify_state k f (u ∷ us) {t} keeps (fresh, d) h = elim (Bool-cases (str_eq u.state k)) [
  | inl e ↦
      let same : some u ≡ some t = rw e at h in
      let here : u ≡ t = cc same in
      rw ((eq_iff u.id (f t).id).1 (ap (λ r. r.id) here ∙ sym (keeps.keeps_id t)), e)
        (ap (λ r. f r ∷ us) (sym here))
  | inr e ↦
      let later : find_state k us ≡ some t = rw e at h in
      rw
        (
          str_eq-false u.id (f t).id (λ p. fresh (
              subst (λ i. In i (ids us)) (sym (p ∙ keeps.keeps_id t))
                (In-ids-find_state k us later))),
          e,
        )
        (ap (λ r. u ∷ r) (put-modify_state k f us keeps d later))
]

-- What is found by id after a change by `state`.
pub find_id-modify_state :
    (k : String) (f : Tx → Tx) (us : List Tx) {t : Tx} (j : String)
    → KeepsKeys f
    → NoDup (ids us)
    → find_state k us ≡ some t
    → find_id j (modify_state k f us) ≡ (if str_eq t.id j then some (f t) else find_id j us)
find_id-modify_state k f us {t} j keeps d h =
    ap (find_id j) (sym (put-modify_state k f us keeps d h))
    ∙ find_id-put (f t) us j
    ∙ ap (λ i. if str_eq i j then some (f t) else find_id j us) (keeps.keeps_id t)
