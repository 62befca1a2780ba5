-- ===== src/Store/Sqlite/Law.antt =====
-- The SQLite store refines the specification on transactions that serde_json reads back.

use ewqwe_identity.Prelude.{
  String, ◌≡◌, refl, sym, ap, ◌∙◌, Option, List, if◌then◌else◌, is_some, ◌<>◌, Bool-cases, inl, inr,
}
use ewqwe_identity.Prelude.Int.{ℤ}
use ewqwe_identity.Prelude.Result.{ok, err}
use ewqwe_identity.Types.{OpenId4vpResult, internal, TransactionStatus}
use ewqwe_identity.Store.Spec.{
  Tx, Unique, find_id, find_state, put, remove, modify_id, modify_state, past,
}
use ewqwe_identity.Store.Spec.Uniqueness.{
  put-Unique, remove-Unique, modify_id-Unique, modify_state-Unique,
}
use ewqwe_identity.Store.Interface.{done, set_status}
use ewqwe_identity.Store.Interface.Partial.{RefinesOn}
use ewqwe_identity.Store.Spec.Every.{All-put, All-remove, All-modify_id, All-modify_state}
use ewqwe_identity.Store.Memory.Law.{set_status-KeepsKeys}
use ewqwe_identity.Store.Sqlite.{
  Table, set, get, find_by_state, delete, update, update_by_state, discard, update_status,
  is_expired, sqlite, alone,
}
use ewqwe_identity.Store.Sqlite.Images.{
  stored, im, IsValid, lands, get_im, find_im, set_im, taken_im, delete_im, update_im,
  update_by_state_im, is_expired_im,
}
use ewqwe_identity.Store.Sqlite.Serde.{Codec, ReadsBack, AllReadBack}

discard-both :
    {Text : Type 0} (r : OpenId4vpResult (Option (Unit {0})) × Table Text) {o : Option (Unit {0})}
    {rows : Table Text}
    → r ≡ (ok o, rows)
    → discard r ≡ (ok tt, rows)
unfolding discard
discard-both r h = rw h refl

module _ {Text : Type 0} (c : Codec Text) (text : Tx → Text) where
  -- An operation that is known on the image of the stored list is known on the table.
  module _ {A : Type 0} (op : Table Text → OpenId4vpResult A × Table Text) (rows : Table Text)
      (v : IsValid c text rows) (a : OpenId4vpResult A) (ts : List Tx) (d : Unique ts)
      (r : AllReadBack c text ts) (e : op (im c text (stored c rows)) ≡ (a, im c text ts)) where
    here : op rows ≡ (a, im c text ts)
    here = ap op v.written ∙ e

    acts : ((op rows).0 ≡ a) × (stored c (op rows).1 ≡ ts) × IsValid c text (op rows).1
    acts =
        let (held, valid) = lands c text (op rows).1 ts (ap (λ r. r.1) here) d r in
        (ap (λ r. r.0) here, held, valid)

  kept :
      (now : ℤ) (k : String) (ts : List Tx)
      → Unique ts
      → AllReadBack c text ts
      → Unique (if past now (find_id k ts) then remove k ts else ts)
        × AllReadBack c text (if past now (find_id k ts) then remove k ts else ts)
  kept now k ts d r = elim (Bool-cases (past now (find_id k ts))) [
    | inl e ↦ rw e (remove-Unique k ts d, All-remove (ReadsBack c text) k ts r)
    | inr e ↦ rw e (d, r)
  ]

  update_status_im :
      (k : String) (st : TransactionStatus) (ts : List Tx)
      → ((t : Tx) → ReadsBack c text t → ReadsBack c text (set_status st t))
      → Unique ts
      → AllReadBack c text ts
      → update_status c alone k st (im c text ts)
        ≡ (ok tt, im c text (modify_id k (set_status st) ts))
  unfolding update_status
  update_status_im k st ts again d r =
      discard-both (update c alone k (set_status st) (im c text ts))
        (update_im c text k (set_status st) ts (set_status-KeepsKeys st) again d r)

  -- When its calls run one after another, the SQLite store does what the specification of a
  -- transaction store says, operation by operation, on every table that holds the texts of
  -- transactions with no id and no state twice, each of which serde_json reads back as it was, as it
  -- does with the transactions that the call sets or that an update makes of such ones.
  pub sqlite-Refines : RefinesOn (ReadsBack c text) (sqlite c) (IsValid c text) (stored c)
  sqlite-Refines = record {
    unique = λ rows v. v.distinct;
    get_ok = λ k rows v. ap (get c k) v.written ∙ get_im c text k (stored c rows) v.readable;
    find_ok =
        λ k rows v. ap (find_by_state c k) v.written ∙ find_im c text k (stored c rows) v.readable;
    set_ok = λ t rows v good apart.
        acts (set c t) rows v (ok tt) (put t (stored c rows))
          (put-Unique t (stored c rows) apart v.distinct)
          (All-put (ReadsBack c text) t (stored c rows) good v.readable)
          (set_im c text t (stored c rows) good apart);
    set_clash = λ t rows v good same. (
      "SQLite set: " <> c.unique_violation,
      ap (set c t) v.written
          ∙ taken_im c text t (stored c rows) good same
          ∙ ap (λ r. (err (internal ("SQLite set: " <> c.unique_violation)), r)) (sym v.written),
    );
    delete_ok = λ k rows v.
        acts (delete k) rows v (ok (is_some (find_id k (stored c rows)))) (remove k (stored c rows))
          (remove-Unique k (stored c rows) v.distinct)
          (All-remove (ReadsBack c text) k (stored c rows) v.readable)
          (delete_im c text k (stored c rows) v.distinct);
    update_ok = λ k f rows v keeps again.
        acts (update c alone k f) rows v (ok (done (find_id k (stored c rows))))
          (modify_id k f (stored c rows)) (modify_id-Unique f keeps k (stored c rows) v.distinct)
          (All-modify_id (ReadsBack c text) f again k (stored c rows) v.readable)
          (update_im c text k f (stored c rows) keeps again v.distinct v.readable);
    update_by_state_ok = λ k f rows v keeps again.
        acts (update_by_state c alone k f) rows v (ok (done (find_state k (stored c rows))))
          (modify_state k f (stored c rows))
          (modify_state-Unique f keeps k (stored c rows) v.distinct)
          (All-modify_state (ReadsBack c text) f again k (stored c rows) v.readable)
          (update_by_state_im c text k f (stored c rows) keeps again v.distinct v.readable);
    update_status_ok = λ k st rows v again.
        acts (update_status c alone k st) rows v (ok tt)
          (modify_id k (set_status st) (stored c rows))
          (modify_id-Unique (set_status st) (set_status-KeepsKeys st) k (stored c rows) v.distinct)
          (All-modify_id (ReadsBack c text) (set_status st) again k (stored c rows) v.readable)
          (update_status_im k st (stored c rows) again v.distinct v.readable);
    is_expired_ok = λ now k rows v.
        let (d, r) = kept now k (stored c rows) v.distinct v.readable in
        acts (is_expired alone now k) rows v (ok (past now (find_id k (stored c rows))))
          (if past now (find_id k (stored c rows)) then remove k (stored c rows) else stored c rows)
          d r (is_expired_im c text now k (stored c rows) v.distinct);
  }
