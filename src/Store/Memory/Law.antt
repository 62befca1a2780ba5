-- ===== src/Store/Memory/Law.antt =====
-- The in-memory store refines the specification.
use mathlib.Core.Path.{subst}
use ewqwe_identity.Prelude.{
  String, ◌≡◌, refl, sym, ap, ◌∙◌, inl, inr, true, false, str_eq, str_eq-true, Option, List, [],
  ◌∷◌, Bool-cases, Option-cases, if◌then◌else◌, is_some, ◌<>◌,
}
use ewqwe_identity.Prelude.Int.{ℤ, ltb_ℤ}
use ewqwe_identity.Prelude.Result.{ok, err}
use ewqwe_identity.Types.{OpenId4vpResult, internal, TransactionStatus}
use ewqwe_identity.Store.Spec.{
  Tx, Unique, KeepsKeys, find_id, find_state, put, remove, clash, modify_id, modify_state, past,
}
use ewqwe_identity.Store.Spec.Uniqueness.{
  put-Unique, remove-Unique, modify_id-Unique, modify_state-Unique,
}
use ewqwe_identity.Store.Spec.Lookup.{remove-none, modify_id-none, modify_state-none}
use ewqwe_identity.Store.Interface.{Refines, done, set_status}
use ewqwe_identity.Store.Memory.{
  Store, new, map_get, map_insert, map_remove, any_duplicate, values_find, map_update,
  values_update, set, get, find_by_state, delete, update, update_by_state, update_status, discard,
  is_expired, in_memory,
}

abbrev Entries : Type 0
Entries = List (String × Tx)

abbrev values : Entries → List Tx
values [] = []
values ((j, t) ∷ m) = t ∷ values m

-- Every entry stands under its own id.
abbrev Keyed : Entries → Type 0
Keyed [] = Unit
Keyed ((j, t) ∷ m) = (j ≡ t.id) × Keyed m

map_get_lem : (k : String) (m : Entries) → Keyed m → map_get k m ≡ find_id k (values m)
unfolding map_get find_id
map_get_lem k [] h = refl
map_get_lem k ((j, t) ∷ m) (e, h) = rw (e, map_get_lem k m h)

values_find_lem : (k : String) (m : Entries) → values_find k m ≡ find_state k (values m)
unfolding values_find find_state
values_find_lem k [] = refl
values_find_lem k ((j, t) ∷ m) = rw (values_find_lem k m)

any_duplicate_lem : (t : Tx) (m : Entries) → any_duplicate t m ≡ clash t (values m)
unfolding any_duplicate clash
any_duplicate_lem t [] = refl
any_duplicate_lem t ((j, u) ∷ m) = rw (any_duplicate_lem t m)

map_insert_lem :
    (t : Tx) (m : Entries)
    → Keyed m
    → (values (map_insert t.id t m) ≡ put t (values m)) × Keyed (map_insert t.id t m)
unfolding map_insert put
map_insert_lem t [] h = (refl, (refl, tt))
map_insert_lem t ((j, u) ∷ m) (e, h) = elim (Bool-cases (str_eq u.id t.id)) [
  | inl d ↦ rw (e, d) (refl, (str_eq-true u.id t.id d, h))
  | inr d ↦ let (p, q) = map_insert_lem t m h in rw (e, d) (ap (λ r. u ∷ r) p, (refl, q))
]

map_remove_lem :
    (k : String) (m : Entries)
    → Keyed m
    → (values (map_remove k m) ≡ remove k (values m)) × Keyed (map_remove k m)
unfolding map_remove remove
map_remove_lem k [] h = (refl, tt)
map_remove_lem k ((j, u) ∷ m) (e, h) = elim (Bool-cases (str_eq u.id k)) [
  | inl d ↦ rw (e, d) (refl, h)
  | inr d ↦ let (p, q) = map_remove_lem k m h in rw (e, d) (ap (λ r. u ∷ r) p, (refl, q))
]

module _ (k : String) (f : Tx → Tx) (keeps : KeepsKeys f) where
  map_update_lem :
      (m : Entries)
      → Keyed m
      → (values (map_update k f m) ≡ modify_id k f (values m)) × Keyed (map_update k f m)
  unfolding map_update modify_id
  map_update_lem [] h = (refl, tt)
  map_update_lem ((j, u) ∷ m) (e, h) = elim (Bool-cases (str_eq u.id k)) [
    | inl d ↦ rw (e, d) (refl, (sym (keeps.keeps_id u), h))
    | inr d ↦ let (p, q) = map_update_lem m h in rw (e, d) (ap (λ r. u ∷ r) p, (refl, q))
  ]

  values_update_lem :
      (m : Entries)
      → Keyed m
      → (values (values_update k f m) ≡ modify_state k f (values m)) × Keyed (values_update k f m)
  unfolding values_update modify_state
  values_update_lem [] h = (refl, tt)
  values_update_lem ((j, u) ∷ m) (e, h) = elim (Bool-cases (str_eq u.state k)) [
    | inl d ↦ rw d (refl, (e ∙ sym (keeps.keeps_id u), h))
    | inr d ↦ let (p, q) = values_update_lem m h in rw d (ap (λ r. u ∷ r) p, (e, q))
  ]

pub record IsValid (s : Store) : Type 0 where
  pub keyed : Keyed s.inner
  pub distinct : Unique (values s.inner)

abbrev pub held : Store → List Tx
held s = values s.inner

pub new-IsValid : (ttl : ℤ) → IsValid (new ttl)
unfolding new
new-IsValid ttl = record { keyed = tt; distinct = record { unique_ids = tt; unique_states = tt } }

pub memory_get : (k : String) (s : Store) → IsValid s → get k s ≡ ok (find_id k (held s))
unfolding get
memory_get k s v = rw (map_get_lem k s.inner v.keyed)

pub memory_find : (k : String) (s : Store) → find_by_state k s ≡ ok (find_state k (held s))
unfolding find_by_state
memory_find k s = rw (values_find_lem k s.inner)

pub memory_set :
    (t : Tx) (s : Store)
    → IsValid s
    → clash t (held s) ≡ false
    → ((set t s).0 ≡ ok tt) × (held (set t s).1 ≡ put t (held s)) × IsValid (set t s).1
unfolding set
memory_set t s v c =
    let (e, k) = map_insert_lem t s.inner v.keyed in
    rw (any_duplicate_lem t s.inner, c)
      (refl, e, record { keyed = k; distinct = rw e (put-Unique t (held s) c v.distinct) })

pub memory_set_clash :
    (t : Tx) (s : Store)
    → clash t (held s) ≡ true
    → set t s ≡ (err (internal ("duplicate state detected for transaction store: " <> t.state)), s)
unfolding set
memory_set_clash t s c = rw (any_duplicate_lem t s.inner, c)

pub memory_delete :
    (k : String) (s : Store)
    → IsValid s
    → ((delete k s).0 ≡ ok (is_some (find_id k (held s))))
      × (held (delete k s).1 ≡ remove k (held s))
      × IsValid (delete k s).1
unfolding delete
memory_delete k s v =
    let (e, keyed) = map_remove_lem k s.inner v.keyed in
    (
      rw (map_get_lem k s.inner v.keyed),
      e,
      record { keyed = keyed; distinct = rw e (remove-Unique k (held s) v.distinct) },
    )

pub memory_update :
    (k : String) (f : Tx → Tx) (s : Store)
    → IsValid s
    → KeepsKeys f
    → ((update k f s).0 ≡ ok (done (find_id k (held s))))
      × (held (update k f s).1 ≡ modify_id k f (held s))
      × IsValid (update k f s).1
unfolding update
memory_update k f s v keeps =
    let (e, keyed) = map_update_lem k f keeps s.inner v.keyed in
    let found = map_get_lem k s.inner v.keyed in
    elim (Option-cases (find_id k (held s))) [
      | inl gone ↦ rw (found, gone, update) (refl, sym (modify_id-none k f (held s) gone), v)
      | inr (t, there) ↦
          rw (found, there, update)
            (
              refl,
              e,
              record {
                keyed = keyed;
                distinct = rw e (modify_id-Unique f keeps k (held s) v.distinct);
              },
            )
    ]

pub memory_update_by_state :
    (k : String) (f : Tx → Tx) (s : Store)
    → IsValid s
    → KeepsKeys f
    → ((update_by_state k f s).0 ≡ ok (done (find_state k (held s))))
      × (held (update_by_state k f s).1 ≡ modify_state k f (held s))
      × IsValid (update_by_state k f s).1
unfolding update_by_state
memory_update_by_state k f s v keeps =
    let (e, keyed) = values_update_lem k f keeps s.inner v.keyed in
    let found = values_find_lem k s.inner in
    elim (Option-cases (find_state k (held s))) [
      | inl gone ↦
          rw (found, gone, update_by_state) (refl, sym (modify_state-none k f (held s) gone), v)
      | inr (t, there) ↦
          rw (found, there, update_by_state)
            (
              refl,
              e,
              record {
                keyed = keyed;
                distinct = rw e (modify_state-Unique f keeps k (held s) v.distinct);
              },
            )
    ]

pub set_status-KeepsKeys : (st : TransactionStatus) → KeepsKeys (set_status st)
set_status-KeepsKeys st = record { keeps_id = λ t. refl; keeps_state = λ t. refl }

discard-state : (r : OpenId4vpResult (Option (Unit {0})) × Store) → (discard r).1 ≡ r.1
unfolding discard
discard-state (ok o, s) = refl
discard-state (err e, s) = refl

discard-ok :
    (r : OpenId4vpResult (Option (Unit {0})) × Store) {o : Option (Unit {0})}
    → r.0 ≡ ok o
    → (discard r).0 ≡ ok tt
unfolding discard
discard-ok (ok o, s) h = refl
discard-ok (err e, s) h = cc

pub memory_update_status :
    (k : String) (st : TransactionStatus) (s : Store)
    → IsValid s
    → ((update_status k st s).0 ≡ ok tt)
      × (held (update_status k st s).1 ≡ modify_id k (set_status st) (held s))
      × IsValid (update_status k st s).1
unfolding update_status
memory_update_status k st s v =
    let (answer, list, valid) = memory_update k (set_status st) s v (set_status-KeepsKeys st) in
    let r = update k (set_status st) s in
    let same = discard-state r in
    (discard-ok r answer, ap held same ∙ list, subst IsValid (sym same) valid)

pub memory_is_expired :
    (now : ℤ) (k : String) (s : Store)
    → IsValid s
    → ((is_expired now k s).0 ≡ ok (past now (find_id k (held s))))
      × (held (is_expired now k s).1
          ≡ (if past now (find_id k (held s)) then remove k (held s) else held s))
      × IsValid (is_expired now k s).1
unfolding is_expired
memory_is_expired now k s v =
    let found = map_get_lem k s.inner v.keyed in
    elim (Option-cases (find_id k (held s))) [
      | inl gone ↦ rw (found, gone, is_expired) (refl, sym (remove-none k (held s) gone), v)
      | inr (t, there) ↦
          rw (found, there, is_expired)
            (elim (Bool-cases (ltb_ℤ t.expires_at now)) [
              | inl late ↦
                  let (e, keyed) = map_remove_lem k s.inner v.keyed in
                  rw late (
                    refl,
                    e,
                    record { keyed = keyed; distinct = rw e (remove-Unique k (held s) v.distinct) },
                  )
              | inr early ↦ rw early (refl, refl, v)
            ])
    ]

-- The in-memory store does what the specification of a transaction store says, operation by
-- operation, on every store whose entries stand under their ids with no id and no state twice.
pub in_memory-Refines : Refines in_memory IsValid held
in_memory-Refines = record {
  unique = λ s v. v.distinct;
  get_ok = memory_get;
  find_ok = λ k s v. memory_find k s;
  set_ok = memory_set;
  set_clash = λ t s v c.
      ("duplicate state detected for transaction store: " <> t.state, memory_set_clash t s c);
  delete_ok = memory_delete;
  update_ok = memory_update;
  update_by_state_ok = memory_update_by_state;
  update_status_ok = memory_update_status;
  is_expired_ok = memory_is_expired;
}
