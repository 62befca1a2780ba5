-- ===== src/Store/Sqlite/Race.antt =====
-- An update while other connections work on the table.
use mathlib.Core.Path.{subst}
use ewqwe_identity.Prelude.{
  String, ◌≡◌, inl, inr, refl, false, str_eq, eq_refl, some, [], ◌∷◌, Bool-cases,
}
use ewqwe_identity.Prelude.Result.{ok, err}
use ewqwe_identity.Types.{OpenId4vpResult}
use ewqwe_identity.Store.Spec.{Tx}
use ewqwe_identity.Store.Sqlite.{
  Row, Table, select_id, taken, upsert, row_of, serialize, deserialize, decode_row, write, set, get,
  some_done, change, update,
}
use ewqwe_identity.Store.Sqlite.Serde.{Codec, ReadsBack}

select_id-upsert :
    {Text : Type 0} (r : Row Text) (rows : Table Text) → select_id r.id (upsert r rows) ≡ some r
unfolding select_id upsert
select_id-upsert r [] = rw (eq_refl r.id) refl
select_id-upsert r (u ∷ rows) = elim (Bool-cases (str_eq u.id r.id)) [
  | inl e ↦ rw (e, eq_refl r.id) refl
  | inr e ↦ rw (e, e) (select_id-upsert r rows)
]

some_done-ok :
    {Text : Type 0} (r : OpenId4vpResult (Unit {0}) × Table Text)
    → r.0 ≡ ok tt
    → ((some_done r).0 ≡ ok (some tt)) × ((some_done r).1 ≡ r.1)
unfolding some_done
some_done-ok (ok u, rows) h = (refl, refl)
some_done-ok (err e, rows) h = cc h

module _ {Text : Type 0} (c : Codec Text) (text : Tx → Text) where
  -- What was set is what is found, whatever the table held.
  get-set :
      (t : Tx) (rows : Table Text)
      → ReadsBack c text t
      → taken (row_of t (text t)) rows ≡ false
      → ((set c t rows).0 ≡ ok tt) × (get c t.id (set c t rows).1 ≡ ok (some t))
  unfolding set write serialize get decode_row deserialize row_of
  get-set t rows (writes, reads) free =
      rw (writes, free) (refl, rw (select_id-upsert (row_of t (text t)) rows) (rw reads refl))

  -- Whatever other connections do to the table between the read and the write of `update`, deleting
  -- the transaction or giving it another status included, the call succeeds and the table then has
  -- the transaction that was read before, with the change of this call alone; on the condition that
  -- the changed transaction keeps its id, that serde_json reads it back, and that no other
  -- transaction has taken its `state`.
  pub update-overwrites :
      (between : Table Text → Table Text) (k : String) (f : Tx → Tx) (rows : Table Text) (t : Tx)
      → get c k rows ≡ ok (some t)
      → (f t).id ≡ k
      → ReadsBack c text (f t)
      → taken (row_of (f t) (text (f t))) (between rows) ≡ false
      → ((update c between k f rows).0 ≡ ok (some tt))
        × (get c k (update c between k f rows).1 ≡ ok (some (f t)))
  unfolding update change
  update-overwrites between k f rows t there same reads free =
      let (said, held) = get-set (f t) (between rows) reads free in
      let (told, table) = some_done-ok (set c (f t) (between rows)) said in
      let found : get c k (set c (f t) (between rows)).1 ≡ ok (some (f t)) =
        subst (λ j. get c j (set c (f t) (between rows)).1 ≡ ok (some (f t))) same held in
      rw (there, change) (told, rw table found)
