-- ===== src/Service/Reachable/Descent.antt =====
-- What every change of the store leaves of a transaction.
use mathlib.Core.Path.{subst}
use ewqwe_identity.Prelude.{
  String, ◌≡◌, ◌⊎◌, inl, inr, refl, sym, ap, ◌∙◌, some, List, str_eq, Bool-cases, Option-cases,
  str_eq-true,
}
use ewqwe_identity.Prelude.Result.{some-injective}
use ewqwe_identity.Store.Spec.{
  Tx, KeepsKeys, Unique, find_id, find_state, put, remove, modify_id, modify_state,
}
use ewqwe_identity.Store.Spec.Lookup.{
  find_id-put, find_id-remove, find_id-modify_id, modify_state-none, find_id-of_find_state,
}
use ewqwe_identity.Store.Spec.Overwrite.{find_id-modify_state}

-- What a later version of a transaction shares with an earlier one.
pub record IsBound (t t' : Tx) : Type 0 where
  pub same_id : t'.id ≡ t.id
  pub same_state : t'.state ≡ t.state
  pub same_nonce : t'.nonce ≡ t.nonce
  pub same_client : t'.client_id ≡ t.client_id
  pub same_query : t'.dcql_query ≡ t.dcql_query
  pub same_expiry : t'.expires_at ≡ t.expires_at

pub IsBound-refl : (t : Tx) → IsBound t t
IsBound-refl t = record {
  same_id = refl;
  same_state = refl;
  same_nonce = refl;
  same_client = refl;
  same_query = refl;
  same_expiry = refl;
}

-- Each transaction of the second list is a later version of one of the first, or is the new one.
abbrev pub Descends : (Tx → Type 0) → List Tx → List Tx → Type 0
Descends New us us' =
    (k : String) (t' : Tx)
    → find_id k us' ≡ some t'
    → ((t : Tx) × (find_id k us ≡ some t) × IsBound t t') ⊎ New t'

module _ (New : Tx → Type 0) where
  pub Descends-same : (us us' : List Tx) → us' ≡ us → Descends New us us'
  Descends-same us us' e k t' h = inl (t', ap (find_id k) (sym e) ∙ h, IsBound-refl t')

  pub Descends-put : (t : Tx) (us us' : List Tx) → us' ≡ put t us → New t → Descends New us us'
  Descends-put t us us' e n k t' h =
      let found = sym (find_id-put t us k) ∙ ap (find_id k) (sym e) ∙ h in
      elim (Bool-cases (str_eq t.id k)) [
        | inl same ↦ inr (subst New (some-injective (rw same at found)) n)
        | inr other ↦ inl (t', rw other at found, IsBound-refl t')
      ]

  pub Descends-remove :
      (j : String) (us us' : List Tx) → Unique us → us' ≡ remove j us → Descends New us us'
  Descends-remove j us us' d e k t' h =
      let found = sym (find_id-remove j k us d.unique_ids) ∙ ap (find_id k) (sym e) ∙ h in
      elim (Bool-cases (str_eq j k)) [
        | inl same ↦ cc (rw same at found)
        | inr other ↦ inl (t', rw other at found, IsBound-refl t')
      ]

  module _ (f : Tx → Tx) (keeps : KeepsKeys f) (binds : (t : Tx) → IsBound t (f t)) where
    pub Descends-modify_id :
        (j : String) (us us' : List Tx) → us' ≡ modify_id j f us → Descends New us us'
    Descends-modify_id j us us' e k t' h =
        let found = sym (find_id-modify_id f keeps j k us) ∙ ap (find_id k) (sym e) ∙ h in
        elim (Bool-cases (str_eq j k)) [
          | inl same ↦ elim (Option-cases (find_id k us)) [
            | inl gone ↦ cc (rw (same, gone) at found)
            | inr (t, there) ↦
                let here : some (f t) ≡ some t' = rw (same, there) at found in
                inl (t, there, subst (IsBound t) (some-injective here) (binds t))
          ]
          | inr other ↦ inl (t', rw other at found, IsBound-refl t')
        ]

    pub Descends-modify_state :
        (j : String) (us us' : List Tx)
        → Unique us
        → us' ≡ modify_state j f us
        → Descends New us us'
    Descends-modify_state j us us' d e k t' h = elim (Option-cases (find_state j us)) [
      | inl gone ↦ Descends-same us us' (e ∙ modify_state-none j f us gone) k t' h
      | inr (t, there) ↦
          let found =
            sym (find_id-modify_state j f us k keeps d.unique_ids there)
            ∙ ap (find_id k) (sym e)
            ∙ h in
          elim (Bool-cases (str_eq t.id k)) [
            | inl same ↦
                let here : some (f t) ≡ some t' = rw same at found in
                let own : find_id k us ≡ some t =
                  ap (λ i. find_id i us) (sym (str_eq-true t.id k same))
                  ∙ find_id-of_find_state j us d.unique_ids there in
                inl (t, own, subst (IsBound t) (some-injective here) (binds t))
            | inr other ↦ inl (t', rw other at found, IsBound-refl t')
          ]
    ]
