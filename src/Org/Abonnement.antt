-- ===== src/Org/Abonnement.antt =====
-- Subscriptions of organisations to products
-- (src/org/domain/entities/abonnement-produit.entity.ts) and their use cases
-- (src/org/application/use-cases/abonnement.use-cases.ts).
use core_kernel.Prelude.{
  ℕ, Bool, true, false, not, ◌&&◌, Option, none, some, List, [], ◌∷◌, ◌++◌, Result, ok, err, Action,
  pure, gets, or_raise, lift, modify, raise_if, ◌>>=◌, ◌>>◌, ◌==◌, find_by_key, save,
}

-- `StatutAbonnement`
pub data Statut : Type 0 where
  actif suspendu resilie : Statut

pub data OrgError : Type 0 where
  abonnement_transition : Statut → Statut → OrgError
  organisation_not_found : OrgError
  abonnement_not_found : OrgError
  already_exists : OrgError
  unregistered_product : ℕ → OrgError

pub record Abonnement : Type 0 where
  pub id : ℕ
  pub organisation_id : ℕ
  pub produit_id : ℕ
  pub statut : Statut
  pub date_debut : ℕ
  pub date_fin : Option ℕ

unfoldable pub create_abonnement : ℕ → ℕ → ℕ → ℕ → Abonnement
create_abonnement id organisation_id produit_id date_debut = record {
  id = id;
  organisation_id = organisation_id;
  produit_id = produit_id;
  statut = actif;
  date_debut = date_debut;
  date_fin = none;
}

unfoldable pub suspend_abonnement : Abonnement → Result OrgError Abonnement
suspend_abonnement a = elim a.statut [
  | actif ↦ ok (record a { statut = suspendu })
  | suspendu ↦ err (abonnement_transition suspendu suspendu)
  | resilie ↦ err (abonnement_transition resilie suspendu)
]

unfoldable pub reactivate_abonnement : Abonnement → Result OrgError Abonnement
reactivate_abonnement a = elim a.statut [
  | suspendu ↦ ok (record a { statut = actif })
  | actif ↦ err (abonnement_transition actif actif)
  | resilie ↦ err (abonnement_transition resilie actif)
]

unfoldable pub resiliate_abonnement : ℕ → Abonnement → Result OrgError Abonnement
resiliate_abonnement date_fin a = elim a.statut [
  | resilie ↦ err (abonnement_transition resilie resilie)
  | actif ↦ ok (record a { statut = resilie; date_fin = some date_fin })
  | suspendu ↦ ok (record a { statut = resilie; date_fin = some date_fin })
]

pub data OrgEvent : Type 0 where
  abonnement_created : ℕ → ℕ → ℕ → OrgEvent
  abonnement_suspended abonnement_reactivated : ℕ → ℕ → OrgEvent
  abonnement_resiliated : ℕ → ℕ → ℕ → OrgEvent

pub record Registry : Type 0 where
  pub abonnements : List Abonnement
  pub events : List OrgEvent

abbrev pub OrgTask : Type 0 → Type 0
OrgTask A = Action Registry OrgError A

abbrev pub abonnement_key : Abonnement → ℕ
abonnement_key a = a.id

abbrev pub put_abonnement : Abonnement → Registry → Registry
put_abonnement a s = record s { abonnements = save abonnement_key a s.abonnements }

abbrev pub emit_org : OrgEvent → Registry → Registry
emit_org e s = record s { events = s.events ++ (e ∷ []) }

abbrev pub is_of : ℕ → ℕ → Abonnement → Bool
is_of organisation_id produit_id a =
    a.organisation_id == organisation_id && a.produit_id == produit_id

-- What the data base answers to `findOne`, which names no order: any row that passes the test.
abbrev pub FindOne : Type 0
FindOne = (Abonnement → Bool) → List Abonnement → Option Abonnement

-- `findByOrganisationAndProduit`
abbrev pub find_by_organisation_and_produit : FindOne → ℕ → ℕ → List Abonnement → Option Abonnement
find_by_organisation_and_produit find_one organisation_id produit_id =
    find_one (is_of organisation_id produit_id)

abbrev pub is_resilie : Statut → Bool
is_resilie resilie = true
is_resilie _ = false

-- `existant && existant.statut !== 'resilie'`
abbrev pub is_standing : Option Abonnement → Bool
is_standing none = false
is_standing (some a) = not (is_resilie a.statut)

-- The organisations and the products are those of other tables.
module _ (find_one : FindOne) (organisation_exists produit_exists_and_active : ℕ → Bool) where
  -- `SubscribeToProduitUseCase.execute`
  unfoldable pub subscribe : ℕ → ℕ → ℕ → ℕ → OrgTask ℕ
  unfolding create_abonnement
  subscribe id organisation_id produit_id date_debut = do
    raise_if (not (organisation_exists organisation_id)) organisation_not_found
    raise_if (not (produit_exists_and_active produit_id)) (unregistered_product produit_id)
    existant ←
        gets
          (λ s. find_by_organisation_and_produit find_one organisation_id produit_id s.abonnements)
    raise_if (is_standing existant) already_exists
    let abonnement = create_abonnement id organisation_id produit_id date_debut
    modify (put_abonnement abonnement)
    modify (emit_org (abonnement_created id organisation_id produit_id))
    pure id

unfoldable pub get_abonnement : ℕ → OrgTask Abonnement
get_abonnement id = do
  or_raise (← gets (λ s. find_by_key abonnement_key id s.abonnements)) abonnement_not_found

-- One of the methods, its row saved and its event published.
abbrev pub change_abonnement :
    ℕ → (Abonnement → Result OrgError Abonnement) → (Abonnement → OrgEvent) → OrgTask (Unit {0})
change_abonnement id change event = do
  abonnement ← get_abonnement id
  changed ← lift (change abonnement)
  modify (put_abonnement changed)
  modify (emit_org (event changed))

-- `TransitionAbonnementUseCase.suspend`
unfoldable pub suspend_request : ℕ → OrgTask (Unit {0})
unfolding get_abonnement
suspend_request id =
    change_abonnement id suspend_abonnement (λ a. abonnement_suspended a.organisation_id id)

-- `TransitionAbonnementUseCase.reactivate`
unfoldable pub reactivate_request : ℕ → OrgTask (Unit {0})
unfolding get_abonnement
reactivate_request id =
    change_abonnement id reactivate_abonnement (λ a. abonnement_reactivated a.organisation_id id)

-- `TransitionAbonnementUseCase.resiliate`
unfoldable pub resiliate_request : ℕ → ℕ → OrgTask (Unit {0})
unfolding get_abonnement
resiliate_request id date_fin =
    change_abonnement id (resiliate_abonnement date_fin)
      (λ a. abonnement_resiliated a.organisation_id id date_fin)

pub data OrgRequest : Type 0 where
  subscribe_to : ℕ → ℕ → ℕ → ℕ → OrgRequest
  suspend_it reactivate_it : ℕ → OrgRequest
  resiliate_it : ℕ → ℕ → OrgRequest

module _ (find_one : FindOne) (organisation_exists produit_exists_and_active : ℕ → Bool) where
  unfoldable pub handle_org : OrgRequest → OrgTask (Unit {0})
  unfolding subscribe suspend_request reactivate_request resiliate_request
  handle_org (subscribe_to id organisation_id produit_id debut) =
      subscribe find_one organisation_exists produit_exists_and_active id organisation_id produit_id
        debut
      >>= λ _. pure tt
  handle_org (suspend_it id) = suspend_request id
  handle_org (reactivate_it id) = reactivate_request id
  handle_org (resiliate_it id date_fin) = resiliate_request id date_fin

  -- Requests that are served one after the other.
  unfoldable pub serve_org : List OrgRequest → Registry → Registry
  serve_org [] s = s
  serve_org (r ∷ rs) s = serve_org rs (handle_org r s).1
