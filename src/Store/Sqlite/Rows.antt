-- ===== src/Store/Sqlite/Rows.antt =====
-- The statements on a table whose rows are the rows of a list of transactions.
use mathlib.Core.Path.{subst}
use ewqwe_identity.Prelude.{
  String, ◌≡◌, refl, sym, ap, inl, inr, str_eq, str_eq-true, str_eq-false, List, [], ◌∷◌,
  Bool-cases, opt_map,
}
use ewqwe_identity.Prelude.Sets.{In, NoDup}
use ewqwe_identity.Store.Spec.{Tx, ids, find_id, find_state, put, remove, clash}
use ewqwe_identity.Store.Sqlite.{
  Row, Table, select_id, select_state, delete_id, taken, upsert, row_of,
}

module _ {Text : Type 0} (text : Tx → Text) where
  abbrev pub row : Tx → Row Text
  row t = row_of t (text t)

  abbrev pub image : List Tx → Table Text
  image [] = []
  image (t ∷ ts) = row t ∷ image ts

  pub select_id_lem :
      (k : String) (ts : List Tx) → select_id k (image ts) ≡ opt_map row (find_id k ts)
  unfolding select_id find_id row_of
  select_id_lem k [] = refl
  select_id_lem k (t ∷ ts) = elim (Bool-cases (str_eq t.id k)) [
    | inl e ↦ rw e refl
    | inr e ↦ rw e (select_id_lem k ts)
  ]

  pub select_state_lem :
      (k : String) (ts : List Tx) → select_state k (image ts) ≡ opt_map row (find_state k ts)
  unfolding select_state find_state row_of
  select_state_lem k [] = refl
  select_state_lem k (t ∷ ts) = elim (Bool-cases (str_eq t.state k)) [
    | inl e ↦ rw e refl
    | inr e ↦ rw e (select_state_lem k ts)
  ]

  pub taken_lem : (t : Tx) (us : List Tx) → taken (row t) (image us) ≡ clash t us
  unfolding taken clash row_of
  taken_lem t [] = refl
  taken_lem t (u ∷ us) = rw (taken_lem t us)

  pub upsert_lem : (t : Tx) (us : List Tx) → upsert (row t) (image us) ≡ image (put t us)
  unfolding upsert put row_of
  upsert_lem t [] = refl
  upsert_lem t (u ∷ us) = elim (Bool-cases (str_eq u.id t.id)) [
    | inl e ↦ rw e refl
    | inr e ↦ rw e (ap (λ r. row u ∷ r) (upsert_lem t us))
  ]

  delete_absent :
      (k : String) (us : List Tx) → (¬ In k (ids us)) → delete_id k (image us) ≡ image us
  unfolding delete_id row_of
  delete_absent k [] n = refl
  delete_absent k (u ∷ us) n =
      rw (str_eq-false u.id k (λ p. n (inl p)))
        (ap (λ r. row u ∷ r) (delete_absent k us (λ m. n (inr m))))

  pub delete_lem :
      (k : String) (us : List Tx) → NoDup (ids us) → delete_id k (image us) ≡ image (remove k us)
  unfolding delete_id remove row_of
  delete_lem k [] d = refl
  delete_lem k (u ∷ us) (fresh, d) = elim (Bool-cases (str_eq u.id k)) [
    | inl e ↦ rw e (
        delete_absent k us (λ m. fresh (subst (λ j. In j (ids us)) (sym (str_eq-true u.id k e)) m)))
    | inr e ↦ rw e (ap (λ r. row u ∷ r) (delete_lem k us d))
  ]
