-- ===== src/Store/Spec/Uniqueness.antt =====
-- The operations keep ids and states unique.
use mathlib.Core.Path.{subst}
use ewqwe_identity.Prelude.{
  String, ◌≡◌, refl, sym, ap, ◌⊎◌, inl, inr, Bool, true, false, str_eq, str_eq-true, eq_iff, List,
  [], ◌∷◌, Bool-cases, ◌≢◌, ◌||◌,
}
use ewqwe_identity.Prelude.Sets.{In, NoDup}
use ewqwe_identity.Store.Spec.{
  Tx, ids, states, Unique, put, remove, clash, modify_id, modify_state, KeepsKeys,
}

ne_of_str_eq : (s t : String) → str_eq s t ≡ false → s ≢ t
ne_of_str_eq s t h e = cc (h, (eq_iff s t).1 e)

or-false : (a b : Bool) → a || b ≡ false → (a ≡ false) × (b ≡ false)
or-false false b h = (refl, h)
or-false true b h = cc

In-ids-put :
    (t : Tx) (us : List Tx) (s : String) → In s (ids (put t us)) → (t.id ≡ s) ⊎ In s (ids us)
unfolding put
In-ids-put t [] s (inl e) = inl e
In-ids-put t [] s (inr m) = absurd m
In-ids-put t (u ∷ us) s m = elim (Bool-cases (str_eq u.id t.id)) [
  | inl e ↦
      let n : In s (ids (t ∷ us)) = rw e at m in elim n [ inl d ↦ inl d | inr d ↦ inr (inr d) ]
  | inr e ↦
      let n : In s (ids (u ∷ put t us)) = rw e at m in
      elim n [
        | inl d ↦ inr (inl d)
        | inr d ↦ elim (In-ids-put t us s d) [ inl c ↦ inl c | inr c ↦ inr (inr c) ]
      ]
]

In-states-put :
    (t : Tx) (us : List Tx) (s : String)
    → In s (states (put t us))
    → (t.state ≡ s) ⊎ In s (states us)
unfolding put
In-states-put t [] s (inl e) = inl e
In-states-put t [] s (inr m) = absurd m
In-states-put t (u ∷ us) s m = elim (Bool-cases (str_eq u.id t.id)) [
  | inl e ↦
      let n : In s (states (t ∷ us)) = rw e at m in elim n [ inl d ↦ inl d | inr d ↦ inr (inr d) ]
  | inr e ↦
      let n : In s (states (u ∷ put t us)) = rw e at m in
      elim n [
        | inl d ↦ inr (inl d)
        | inr d ↦ elim (In-states-put t us s d) [ inl c ↦ inl c | inr c ↦ inr (inr c) ]
      ]
]

put-unique_ids : (t : Tx) (us : List Tx) → NoDup (ids us) → NoDup (ids (put t us))
unfolding put
put-unique_ids t [] h = (λ m. m, tt)
put-unique_ids t (u ∷ us) (fresh, h) = elim (Bool-cases (str_eq u.id t.id)) [
  | inl e ↦ rw e (subst (λ k. ¬ In k (ids us)) (str_eq-true u.id t.id e) fresh, h)
  | inr e ↦ rw e (
    λ m. elim (In-ids-put t us u.id m) [
      | inl d ↦ ne_of_str_eq u.id t.id e (sym d)
      | inr d ↦ fresh d
    ],
    put-unique_ids t us h,
  )
]

-- Without a clash, the owner of the state is the transaction's own id.
owner_of_state :
    (t : Tx) (us : List Tx) → clash t us ≡ false → In t.state (states us) → In t.id (ids us)
unfolding clash
owner_of_state t [] c m = absurd m
owner_of_state t (u ∷ us) c (inl e) = inl (elim (Bool-cases (str_eq u.id t.id)) [
  | inl d ↦ str_eq-true u.id t.id d
  | inr d ↦ cc (rw (d, (eq_iff u.state t.state).1 e) at c)
])
owner_of_state t (u ∷ us) c (inr m) = inr (owner_of_state t us (or-false _ _ c).1 m)

put-unique_states :
    (t : Tx) (us : List Tx)
    → clash t us ≡ false
    → NoDup (ids us)
    → NoDup (states us)
    → NoDup (states (put t us))
unfolding put clash
put-unique_states t [] c i h = (λ m. m, tt)
put-unique_states t (u ∷ us) c (new, i) (fresh, h) = elim (Bool-cases (str_eq u.id t.id)) [
  | inl e ↦ rw e (
    λ m. new (
        subst (λ k. In k (ids us)) (sym (str_eq-true u.id t.id e))
          (owner_of_state t us (or-false _ _ c).1 m)),
    h,
  )
  | inr e ↦ rw e (
    λ m. elim (In-states-put t us u.state m) [
      | inl d ↦ cc (rw (e, (eq_iff u.state t.state).1 (sym d)) at c)
      | inr d ↦ fresh d
    ],
    put-unique_states t us (or-false _ _ c).1 i h,
  )
]

pub put-Unique : (t : Tx) (us : List Tx) → clash t us ≡ false → Unique us → Unique (put t us)
put-Unique t us c h = record {
  unique_ids = put-unique_ids t us h.unique_ids;
  unique_states = put-unique_states t us c h.unique_ids h.unique_states;
}

-- `remove` and `modify_id` and `modify_state` drop keys or leave them alone.
In-ids-remove : (k : String) (us : List Tx) (s : String) → In s (ids (remove k us)) → In s (ids us)
unfolding remove
In-ids-remove k [] s m = m
In-ids-remove k (u ∷ us) s m = elim (Bool-cases (str_eq u.id k)) [
  | inl e ↦ inr (rw e at m)
  | inr e ↦
      let n : In s (ids (u ∷ remove k us)) = rw e at m in
      elim n [ inl d ↦ inl d | inr d ↦ inr (In-ids-remove k us s d) ]
]

In-states-remove :
    (k : String) (us : List Tx) (s : String) → In s (states (remove k us)) → In s (states us)
unfolding remove
In-states-remove k [] s m = m
In-states-remove k (u ∷ us) s m = elim (Bool-cases (str_eq u.id k)) [
  | inl e ↦ inr (rw e at m)
  | inr e ↦
      let n : In s (states (u ∷ remove k us)) = rw e at m in
      elim n [ inl d ↦ inl d | inr d ↦ inr (In-states-remove k us s d) ]
]

pub remove-Unique : (k : String) (us : List Tx) → Unique us → Unique (remove k us)
unfolding remove
remove-Unique k [] h = h
remove-Unique k (u ∷ us) h =
    let rest =
      remove-Unique k us
        (record { unique_ids = h.unique_ids.1; unique_states = h.unique_states.1 }) in
    elim (Bool-cases (str_eq u.id k)) [
      | inl e ↦ rw e (record { unique_ids = h.unique_ids.1; unique_states = h.unique_states.1 })
      | inr e ↦ rw e (record {
        unique_ids = (λ m. h.unique_ids.0 (In-ids-remove k us u.id m), rest.unique_ids);
        unique_states =
            (λ m. h.unique_states.0 (In-states-remove k us u.state m), rest.unique_states);
      })
    ]

module _ (f : Tx → Tx) (keeps : KeepsKeys f) where
  pub ids-modify_id : (k : String) (us : List Tx) → ids (modify_id k f us) ≡ ids us
  unfolding modify_id
  ids-modify_id k [] = refl
  ids-modify_id k (u ∷ us) = elim (Bool-cases (str_eq u.id k)) [
    | inl e ↦ rw e (ap (λ i. i ∷ ids us) (keeps.keeps_id u))
    | inr e ↦ rw e (ap (λ r. u.id ∷ r) (ids-modify_id k us))
  ]

  pub states-modify_id : (k : String) (us : List Tx) → states (modify_id k f us) ≡ states us
  unfolding modify_id
  states-modify_id k [] = refl
  states-modify_id k (u ∷ us) = elim (Bool-cases (str_eq u.id k)) [
    | inl e ↦ rw e (ap (λ i. i ∷ states us) (keeps.keeps_state u))
    | inr e ↦ rw e (ap (λ r. u.state ∷ r) (states-modify_id k us))
  ]

  pub modify_id-Unique : (k : String) (us : List Tx) → Unique us → Unique (modify_id k f us)
  modify_id-Unique k us h = record {
    unique_ids = subst NoDup (sym (ids-modify_id k us)) h.unique_ids;
    unique_states = subst NoDup (sym (states-modify_id k us)) h.unique_states;
  }

  ids-modify_state : (k : String) (us : List Tx) → ids (modify_state k f us) ≡ ids us
  unfolding modify_state
  ids-modify_state k [] = refl
  ids-modify_state k (u ∷ us) = elim (Bool-cases (str_eq u.state k)) [
    | inl e ↦ rw e (ap (λ i. i ∷ ids us) (keeps.keeps_id u))
    | inr e ↦ rw e (ap (λ r. u.id ∷ r) (ids-modify_state k us))
  ]

  states-modify_state : (k : String) (us : List Tx) → states (modify_state k f us) ≡ states us
  unfolding modify_state
  states-modify_state k [] = refl
  states-modify_state k (u ∷ us) = elim (Bool-cases (str_eq u.state k)) [
    | inl e ↦ rw e (ap (λ i. i ∷ states us) (keeps.keeps_state u))
    | inr e ↦ rw e (ap (λ r. u.state ∷ r) (states-modify_state k us))
  ]

  pub modify_state-Unique : (k : String) (us : List Tx) → Unique us → Unique (modify_state k f us)
  modify_state-Unique k us h = record {
    unique_ids = subst NoDup (sym (ids-modify_state k us)) h.unique_ids;
    unique_states = subst NoDup (sym (states-modify_state k us)) h.unique_states;
  }
