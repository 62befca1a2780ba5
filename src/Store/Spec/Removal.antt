-- ===== src/Store/Spec/Removal.antt =====
-- After a transaction is removed nothing is found under its keys.
use mathlib.Core.Path.{subst}
use ewqwe_identity.Prelude.{
  String, ◌≡◌, refl, sym, ap, inl, inr, str_eq, str_eq-true, str_eq-false, eq_iff, none, some, List,
  [], ◌∷◌, Bool-cases,
}
use ewqwe_identity.Prelude.Sets.{In}
use ewqwe_identity.Store.Spec.{Tx, states, Unique, find_state, remove}
use ewqwe_identity.Store.Spec.Overwrite.{In-ids-find_state}

not-In-find_state : (k : String) (us : List Tx) → (¬ In k (states us)) → find_state k us ≡ none
unfolding find_state
not-In-find_state k [] n = refl
not-In-find_state k (u ∷ us) n =
    rw (str_eq-false u.state k (λ e. n (inl e))) (not-In-find_state k us (λ m. n (inr m)))

pub find_state-remove :
    (k : String) (us : List Tx) {t : Tx}
    → Unique us
    → find_state k us ≡ some t
    → find_state k (remove t.id us) ≡ none
unfolding find_state remove
find_state-remove k [] d h = cc
find_state-remove k (u ∷ us) {t} d h = elim (Bool-cases (str_eq u.state k)) [
  | inl e ↦
      let same : some u ≡ some t = rw e at h in
      let here : u ≡ t = cc same in
      rw ((eq_iff u.id t.id).1 (ap (λ r. r.id) here)) (
        not-In-find_state k us (λ m.
          d.unique_states.0 (subst (λ i. In i (states us)) (sym (str_eq-true u.state k e)) m)))
  | inr e ↦
      let later : find_state k us ≡ some t = rw e at h in
      rw (str_eq-false u.id t.id (λ p. d.unique_ids.0 (rw p (In-ids-find_state k us later)))) (
        rw e (
          find_state-remove k us
            (record { unique_ids = d.unique_ids.1; unique_states = d.unique_states.1 }) later))
]
