-- ===== src/Org/Contracts.antt =====
-- What the life of a subscription guarantees, and what it does not
-- (src/org/application/use-cases/abonnement.use-cases.ts).
use core_kernel.Prelude.{
  ℕ, ◌≡◌, ◌≢◌, ap, ◌∙◌, inl, inr, Bool, some, List, [], ◌∷◌, arith, Result, ok, ◌==◌, ==_iff,
  Bool-cases, All, find_by_key, find_by_key-save, find_by_key-Member, or_raise_cases, lift_cases,
  modify, ◌>>◌, lift, ◌>>=◌,
}
use core_kernel.Org.Abonnement.{
  FindOne, resilie, OrgError, abonnement_not_found, Abonnement, create_abonnement,
  suspend_abonnement, reactivate_abonnement, resiliate_abonnement, OrgEvent, Registry,
  abonnement_key, put_abonnement, emit_org, OrgRequest, subscribe_to, suspend_it, reactivate_it,
  resiliate_it, handle_org, serve_org, subscribe, get_abonnement, change_abonnement,
  suspend_request, reactivate_request, resiliate_request, abonnement_suspended,
  abonnement_reactivated, abonnement_resiliated,
}

-- A change that keeps the identifier, and that a resiliated subscription refuses.
record Respects (change : Abonnement → Result OrgError Abonnement) : Type 0 where
  keeps : (a b : Abonnement) → change a ≡ ok b → b.id ≡ a.id
  refuses : (a b : Abonnement) → a.statut ≡ resilie → change a ≢ ok b

suspend-Respects : Respects suspend_abonnement
unfolding suspend_abonnement
suspend-Respects = record { keeps = λ a b e. ground arith; refuses = λ a b r e. ground arith }

reactivate-Respects : Respects reactivate_abonnement
unfolding reactivate_abonnement
reactivate-Respects = record { keeps = λ a b e. ground arith; refuses = λ a b r e. ground arith }

resiliate-Respects : (date_fin : ℕ) → Respects (resiliate_abonnement date_fin)
unfolding resiliate_abonnement
resiliate-Respects date_fin = record {
  keeps = λ a b e. ground arith;
  refuses = λ a b r e. ground arith;
}

-- The row of this identifier is `a`.
abbrev pub Stands : ℕ → Abonnement → Registry → Type 0
Stands id a s = find_by_key abonnement_key id s.abonnements ≡ some a

change-Stands :
    (change : Abonnement → Result OrgError Abonnement) (event : Abonnement → OrgEvent)
    → Respects change
    → (other id : ℕ) (a : Abonnement) (s : Registry) → a.statut ≡ resilie
    → Stands id a s
    → Stands id a (change_abonnement other change event s).1
unfolding get_abonnement
change-Stands change event respects other id a s r k =
    or_raise_cases {A = Abonnement} {B = Unit {0}} (λ o. Stands id a o.1)
      (find_by_key abonnement_key other s.abonnements) abonnement_not_found
      (λ x. lift (change x) >>= λ y. (modify (put_abonnement y) >> modify (emit_org (event y)))) s
      (λ x found.
        lift_cases {A = Abonnement} {B = Unit {0}} (λ o. Stands id a o.1) (change x)
          (λ y. modify (put_abonnement y) >> modify (emit_org (event y))) s
          (λ y changed. elim (Bool-cases (other == id)) [
            | inl same ↦
                let q : other ≡ id = (==_iff other id).0 same in
                let e : x ≡ a = cc in
                absurd (respects.refuses x y (ap (λ z. z.statut) e ∙ r) changed)
            | inr differs ↦
                let key = (find_by_key-Member abonnement_key other x s.abonnements found).1 in
                let kept = respects.keeps x y changed in
                let saved = find_by_key-save abonnement_key id y s.abonnements in ground arith
          ])
          (λ e failed. k))
      (λ absent. k)

-- A new subscription is not given the identifier.
abbrev pub IsOther : ℕ → OrgRequest → Type 0
IsOther id (subscribe_to new _ _ _) = new ≢ id
IsOther id (suspend_it _) = Unit
IsOther id (reactivate_it _) = Unit
IsOther id (resiliate_it _ _) = Unit

module _ (find_one : FindOne) (organisation_exists produit_exists_and_active : ℕ → Bool) where
  subscribe-Stands :
      (new o p debut id : ℕ) (a : Abonnement) (s : Registry)
      → new ≢ id
      → Stands id a s
      → Stands id a
          (handle_org find_one organisation_exists produit_exists_and_active
            (subscribe_to new o p debut)
            s).1
  unfolding handle_org subscribe create_abonnement
  subscribe-Stands new o p debut id a s other k =
      let saved =
        find_by_key-save abonnement_key id (create_abonnement new o p debut) s.abonnements in
      ground arith

  -- Once a subscription is resiliated, its row stays as it is whatever is requested afterwards, if no
  -- new subscription gets its identifier.
  pub resiliated_is_final :
      (rs : List OrgRequest) (id : ℕ) (a : Abonnement) (s : Registry)
      → a.statut ≡ resilie
      → Stands id a s
      → All (IsOther id) rs
      → Stands id a (serve_org find_one organisation_exists produit_exists_and_active rs s)
  unfolding serve_org handle_org suspend_request reactivate_request resiliate_request
  resiliated_is_final [] id a s r k others = k
  resiliated_is_final (subscribe_to new o p debut ∷ rs) id a s r k others =
      resiliated_is_final rs id a _ r (subscribe-Stands new o p debut id a s others.0 k) others.1
  resiliated_is_final (suspend_it other ∷ rs) id a s r k others =
      resiliated_is_final rs id a _ r
        (change-Stands suspend_abonnement (λ x. abonnement_suspended x.organisation_id other)
          suspend-Respects other id a s r k)
        others.1
  resiliated_is_final (reactivate_it other ∷ rs) id a s r k others =
      resiliated_is_final rs id a _ r
        (change-Stands reactivate_abonnement (λ x. abonnement_reactivated x.organisation_id other)
          reactivate-Respects other id a s r k)
        others.1
  resiliated_is_final (resiliate_it other date_fin ∷ rs) id a s r k others =
      resiliated_is_final rs id a _ r
        (change-Stands (resiliate_abonnement date_fin)
          (λ x. abonnement_resiliated x.organisation_id other date_fin)
          (resiliate-Respects date_fin) other id a s r k)
        others.1
