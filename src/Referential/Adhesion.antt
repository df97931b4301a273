-- ===== src/Referential/Adhesion.antt =====
-- Which countries belong to which regional blocks (`PaysBlocRegional` of
-- src/referential/domain/entities/relations.entity.ts, and the use cases of
-- src/referential/application/use-cases/bloc-regional.use-cases.ts). Which countries and blocks exist
-- are arguments. The dates are whole days, as the columns of type `date` keep them.
use core_kernel.Prelude.{
  ℕ, Bool, not, Option, none, some, List, ◌∷◌, find_by_key, save, Action, gets, or_raise, pure,
  modify, raise_if, ◌>>=◌, ◌>>◌,
}

-- `StatutAdhesionBlocRegional`
pub data StatutAdhesion : Type 0 where
  membre suspendu retire : StatutAdhesion

pub record PaysBlocRegional : Type 0 where
  pub id : ℕ
  pub pays_id : ℕ
  pub bloc_regional_id : ℕ
  pub date_adhesion : ℕ
  pub date_retrait : Option ℕ
  pub statut_actuel : StatutAdhesion

pub data AdhesionError : Type 0 where
  pays_not_found bloc_not_found relation_not_found : AdhesionError

pub data AdhesionEvent : Type 0 where
  adhesion : ℕ → ℕ → AdhesionEvent
  retrait : ℕ → ℕ → ℕ → AdhesionEvent

pub record Adhesions : Type 0 where
  pub rows : List PaysBlocRegional
  pub events : List AdhesionEvent

-- `PaysBlocRegional.create`
unfoldable pub create_adhesion : ℕ → ℕ → ℕ → ℕ → PaysBlocRegional
create_adhesion id pays_id bloc_regional_id date_adhesion = record {
  id = id;
  pays_id = pays_id;
  bloc_regional_id = bloc_regional_id;
  date_adhesion = date_adhesion;
  date_retrait = none;
  statut_actuel = membre;
}

unfoldable pub suspend : PaysBlocRegional → PaysBlocRegional
suspend r = record r { statut_actuel = suspendu }

unfoldable pub withdraw : ℕ → PaysBlocRegional → PaysBlocRegional
withdraw date_retrait r = record r { date_retrait = some date_retrait; statut_actuel = retire }

unfoldable pub reinstate : PaysBlocRegional → PaysBlocRegional
reinstate r = record r { statut_actuel = membre; date_retrait = none }

abbrev pub adhesion_key : PaysBlocRegional → ℕ
adhesion_key r = r.id

abbrev pub AdhesionTask : Type 0 → Type 0
AdhesionTask A = Action Adhesions AdhesionError A

abbrev pub put_adhesion : PaysBlocRegional → Adhesions → Adhesions
put_adhesion r s = record s { rows = save adhesion_key r s.rows }

abbrev emit : AdhesionEvent → Adhesions → Adhesions
emit e s = record s { events = e ∷ s.events }

-- `AddPaysToBlocRegionalUseCase.execute`
unfoldable pub add_pays_to_bloc : (ℕ → Bool) → (ℕ → Bool) → ℕ → ℕ → ℕ → ℕ → AdhesionTask ℕ
unfolding create_adhesion
add_pays_to_bloc pays_exists bloc_exists id pays_id bloc_regional_id date_adhesion = do
  raise_if (not (pays_exists pays_id)) pays_not_found
  raise_if (not (bloc_exists bloc_regional_id)) bloc_not_found
  modify (put_adhesion (create_adhesion id pays_id bloc_regional_id date_adhesion))
  modify (emit (adhesion pays_id bloc_regional_id))
  pure id

-- `WithdrawPaysFromBlocRegionalUseCase.execute`
unfoldable pub withdraw_pays_from_bloc : ℕ → ℕ → AdhesionTask (Unit {0})
unfolding withdraw
withdraw_pays_from_bloc relation_id date_retrait = do
  found ← gets (λ s. find_by_key adhesion_key relation_id s.rows)
  relation ← or_raise found relation_not_found
  modify (put_adhesion (withdraw date_retrait relation))
  modify (emit (retrait relation.pays_id relation.bloc_regional_id date_retrait))
