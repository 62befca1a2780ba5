-- ===== src/Store/Sqlite/Images.antt =====
-- The operations on a table that holds a list of transactions.
use mathlib.Core.Path.{subst}
use ewqwe_identity.Prelude.{
  String, ◌≡◌, refl, sym, ap, ◌∙◌, inl, inr, true, false, Option, none, some, List, [], ◌∷◌,
  Bool-cases, Option-cases, if◌then◌else◌, is_some, ◌<>◌, opt_map,
}
use ewqwe_identity.Prelude.Int.{ℤ, ltb_ℤ}
use ewqwe_identity.Prelude.Result.{Result, ok, err}
use ewqwe_identity.Types.{internal}
use ewqwe_identity.Store.Spec.{
  Tx, Unique, KeepsKeys, find_id, find_state, put, remove, clash, modify_id, modify_state, past,
}
use ewqwe_identity.Store.Spec.Lookup.{
  remove-none, modify_id-none, modify_state-none, find_id-id, find_id-of_find_state,
}
use ewqwe_identity.Store.Spec.Overwrite.{clash-found, put-modify_id, put-modify_state}
use ewqwe_identity.Store.Spec.Every.{All-find_id, All-find_state}
use ewqwe_identity.Store.Interface.{done}
use ewqwe_identity.Store.Sqlite.{
  Table, serialize, deserialize, row_of, decode_row, write, set, get, find_by_state, delete,
  some_done, change, update, update_by_state, is_expired, alone,
}
use ewqwe_identity.Store.Sqlite.Rows.{
  row, image, select_id_lem, select_state_lem, taken_lem, upsert_lem, delete_lem,
}
use ewqwe_identity.Store.Sqlite.Serde.{Codec, ReadsBack, AllReadBack}

-- The transactions that the rows of a table hold; a row that does not parse holds none.
abbrev pub keep : Result String Tx → List Tx → List Tx
keep (ok t) ts = t ∷ ts
keep (err e) ts = ts

abbrev pub stored : {Text : Type 0} → Codec Text → Table Text → List Tx
stored c [] = []
stored c (r ∷ rows) = keep (c.from_str r.data_json) (stored c rows)

module _ {Text : Type 0} (c : Codec Text) (text : Tx → Text) where
  abbrev pub im : List Tx → Table Text
  im = image text

  stored-im : (ts : List Tx) → AllReadBack c text ts → stored c (im ts) ≡ ts
  unfolding row_of
  stored-im [] r = refl
  stored-im (t ∷ ts) (here, r) = rw (here.1, stored-im ts r) refl

  -- The table holds the rows of a list of transactions that serde_json reads back and in which no
  -- key stands twice.
  pub record IsValid (rows : Table Text) : Type 0 where
    pub written : rows ≡ im (stored c rows)
    pub distinct : Unique (stored c rows)
    pub readable : AllReadBack c text (stored c rows)

  -- A result whose table is the image of a list.
  pub lands :
      (rows : Table Text) (ts : List Tx)
      → rows ≡ im ts
      → Unique ts
      → AllReadBack c text ts
      → (stored c rows ≡ ts) × IsValid rows
  lands rows ts e d r =
      let held : stored c rows ≡ ts = ap (stored c) e ∙ stored-im ts r in
      (
        held,
        record {
          written = e ∙ ap im (sym held);
          distinct = subst Unique (sym held) d;
          readable = subst (AllReadBack c text) (sym held) r;
        },
      )

  decode_lem :
      (o : Option Tx)
      → ((t : Tx) → o ≡ some t → ReadsBack c text t)
      → decode_row c (opt_map (row text) o) ≡ ok o
  unfolding decode_row deserialize row_of
  decode_lem none r = refl
  decode_lem (some t) r = rw ((r t refl).1) refl

  pub get_im :
      (k : String) (ts : List Tx) → AllReadBack c text ts → get c k (im ts) ≡ ok (find_id k ts)
  unfolding get
  get_im k ts r =
      rw (select_id_lem text k ts)
        (decode_lem (find_id k ts) (λ t e. All-find_id (ReadsBack c text) k ts r e))

  pub find_im :
      (k : String) (ts : List Tx)
      → AllReadBack c text ts
      → find_by_state c k (im ts) ≡ ok (find_state k ts)
  unfolding find_by_state
  find_im k ts r =
      rw (select_state_lem text k ts)
        (decode_lem (find_state k ts) (λ t e. All-find_state (ReadsBack c text) k ts r e))

  serialize_lem : (t : Tx) → ReadsBack c text t → serialize c t ≡ ok (text t)
  unfolding serialize
  serialize_lem t (writes, reads) = rw writes refl

  pub set_im :
      (t : Tx) (ts : List Tx)
      → ReadsBack c text t
      → clash t ts ≡ false
      → set c t (im ts) ≡ (ok tt, im (put t ts))
  unfolding set write
  set_im t ts r apart =
      rw (serialize_lem t r, taken_lem text t ts, apart, upsert_lem text t ts) refl

  pub taken_im :
      (t : Tx) (ts : List Tx)
      → ReadsBack c text t
      → clash t ts ≡ true
      → set c t (im ts) ≡ (err (internal ("SQLite set: " <> c.unique_violation)), im ts)
  unfolding set write
  taken_im t ts r same = rw (serialize_lem t r, taken_lem text t ts, same) refl

  pub delete_im :
      (k : String) (ts : List Tx)
      → Unique ts
      → delete k (im ts) ≡ (ok (is_some (find_id k ts)), im (remove k ts))
  unfolding delete
  delete_im k ts d =
      rw (select_id_lem text k ts, delete_lem text k ts d.unique_ids)
        (elim (Option-cases (find_id k ts)) [ inl e ↦ rw e refl | inr (t, e) ↦ rw e refl ])

  pub update_im :
      (k : String) (f : Tx → Tx) (ts : List Tx)
      → KeepsKeys f
      → ((t : Tx) → ReadsBack c text t → ReadsBack c text (f t))
      → Unique ts
      → AllReadBack c text ts
      → update c alone k f (im ts) ≡ (ok (done (find_id k ts)), im (modify_id k f ts))
  unfolding update change some_done
  update_im k f ts keeps again d r = elim (Option-cases (find_id k ts)) [
    | inl gone ↦ rw (get_im k ts r, gone, modify_id-none k f ts gone) refl
    | inr (t, there) ↦
        let own = find_id-id k ts there in
        rw
          (
            get_im k ts r,
            there,
            set_im (f t) ts (again t (All-find_id (ReadsBack c text) k ts r there))
                (clash-found k f ts keeps own d there),
            put-modify_id k f ts keeps own there,
          )
          refl
  ]

  pub update_by_state_im :
      (k : String) (f : Tx → Tx) (ts : List Tx)
      → KeepsKeys f
      → ((t : Tx) → ReadsBack c text t → ReadsBack c text (f t))
      → Unique ts
      → AllReadBack c text ts
      → update_by_state c alone k f (im ts)
        ≡ (ok (done (find_state k ts)), im (modify_state k f ts))
  unfolding update_by_state change some_done
  update_by_state_im k f ts keeps again d r = elim (Option-cases (find_state k ts)) [
    | inl gone ↦ rw (find_im k ts r, gone, modify_state-none k f ts gone) refl
    | inr (t, there) ↦
        let own = find_id-of_find_state k ts d.unique_ids there in
        rw
          (
            find_im k ts r,
            there,
            set_im (f t) ts (again t (All-find_state (ReadsBack c text) k ts r there))
                (clash-found t.id f ts keeps refl d own),
            put-modify_state k f ts keeps d.unique_ids there,
          )
          refl
  ]

  pub is_expired_im :
      (now : ℤ) (k : String) (ts : List Tx)
      → Unique ts
      → is_expired alone now k (im ts)
        ≡ (ok (past now (find_id k ts)), im (if past now (find_id k ts) then remove k ts else ts))
  unfolding is_expired row_of
  is_expired_im now k ts d = elim (Option-cases (find_id k ts)) [
    | inl gone ↦ rw (select_id_lem text k ts, gone, remove-none k ts gone, is_expired) refl
    | inr (t, there) ↦ elim (Bool-cases (ltb_ℤ t.expires_at now)) [
      | inl late ↦
          rw (select_id_lem text k ts, there, late, delete_lem text k ts d.unique_ids, is_expired)
            refl
      | inr early ↦ rw (select_id_lem text k ts, there, early, is_expired) refl
    ]
  ]
