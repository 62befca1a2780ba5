-- ===== src/Store/Spec/Every.antt =====
-- What holds of every transaction of a store, under each operation.
use ewqwe_identity.Prelude.{String, ◌≡◌, inl, inr, str_eq, some, List, [], ◌∷◌, Bool-cases}
use mathlib.Core.Path.{subst}
use ewqwe_identity.Prelude.{Bool, true, false, if◌then◌else◌}
use ewqwe_identity.Prelude.Result.{some-injective}
use ewqwe_identity.Prelude.{All}
use ewqwe_identity.Store.Spec.{Tx, find_id, find_state, put, remove, modify_id, modify_state}

module _ (P : Tx → Type 0) where
  pub All-find_id : (k : String) (us : List Tx) {t : Tx} → All P us → find_id k us ≡ some t → P t
  unfolding find_id
  All-find_id k [] h e = cc e
  All-find_id k (u ∷ us) {t} (here, h) e = elim (Bool-cases (str_eq u.id k)) [
    | inl b ↦ subst P (some-injective (rw b at e)) here
    | inr b ↦ All-find_id k us h (rw b at e)
  ]

  pub All-find_state :
      (k : String) (us : List Tx) {t : Tx} → All P us → find_state k us ≡ some t → P t
  unfolding find_state
  All-find_state k [] h e = cc e
  All-find_state k (u ∷ us) {t} (here, h) e = elim (Bool-cases (str_eq u.state k)) [
    | inl b ↦ subst P (some-injective (rw b at e)) here
    | inr b ↦ All-find_state k us h (rw b at e)
  ]

  -- One element replaced, or none.
  one_of :
      (b : Bool) (u : Tx) (vs ws : List Tx)
      → P u
      → All P vs
      → All P ws
      → All P (if b then vs else u ∷ ws)
  one_of true u vs ws here h r = h
  one_of false u vs ws here h r = (here, r)

  pub All-put : (t : Tx) (us : List Tx) → P t → All P us → All P (put t us)
  unfolding put
  All-put t [] p h = (p, tt)
  All-put t (u ∷ us) p (here, h) =
      one_of (str_eq u.id t.id) u (t ∷ us) (put t us) here (p, h) (All-put t us p h)

  pub All-remove : (k : String) (us : List Tx) → All P us → All P (remove k us)
  unfolding remove
  All-remove k [] h = h
  All-remove k (u ∷ us) (here, h) =
      one_of (str_eq u.id k) u us (remove k us) here h (All-remove k us h)

  module _ (f : Tx → Tx) (again : (t : Tx) → P t → P (f t)) where
    pub All-modify_id : (k : String) (us : List Tx) → All P us → All P (modify_id k f us)
    unfolding modify_id
    All-modify_id k [] h = h
    All-modify_id k (u ∷ us) (here, h) =
        one_of (str_eq u.id k) u (f u ∷ us) (modify_id k f us) here (again u here, h)
          (All-modify_id k us h)

    pub All-modify_state : (k : String) (us : List Tx) → All P us → All P (modify_state k f us)
    unfolding modify_state
    All-modify_state k [] h = h
    All-modify_state k (u ∷ us) (here, h) =
        one_of (str_eq u.state k) u (f u ∷ us) (modify_state k f us) here (again u here, h)
          (All-modify_state k us h)
