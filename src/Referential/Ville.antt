-- ===== src/Referential/Ville.antt =====
-- Cities and their use cases (src/referential/domain/entities/ville.entity.ts and
-- src/referential/application/use-cases/ville.use-cases.ts). Which countries exist and which nodes of
-- the engine are published are arguments.
use core_kernel.Prelude.{
  ℕ, Bool, true, not, Option, none, some, List, [], ◌∷◌, ◌++◌, Text, trim, given, find_by_key, save,
  Action, pure, gets, or_raise, modify, raise_if, ◌>>=◌, ◌>>◌,
}
use core_kernel.Engine.Villes.{VilleMessage, ville_created, ville_moved}

pub record Ville : Type 0 where
  pub id : ℕ
  pub pays_id : ℕ
  pub nom : Text
  pub referentiel_hierarchique_id : Option ℕ
  pub est_actif : Bool
  pub cree_le : ℕ
  pub modifie_le : ℕ

-- `Ville.create`
unfoldable pub create_ville : ℕ → ℕ → ℕ → Text → Option ℕ → Ville
create_ville now id pays_id nom noeud = record {
  id = id;
  pays_id = pays_id;
  nom = trim nom;
  referentiel_hierarchique_id = noeud;
  est_actif = true;
  cree_le = now;
  modifie_le = now;
}

-- `updateDetails({ referentielHierarchiqueId })`
unfoldable pub place_ville : ℕ → Option ℕ → Ville → Ville
place_ville now noeud v = record v { referentiel_hierarchique_id = noeud; modifie_le = now }

-- `deactivate` and `reactivate`
unfoldable pub activate_ville : ℕ → Bool → Ville → Ville
activate_ville now est_actif v = record v { est_actif = est_actif; modifie_le = now }

pub data VilleError : Type 0 where
  pays_not_found : VilleError
  ville_not_found : VilleError
  unpublished_hierarchical_node : ℕ → VilleError

-- The events carry what the counter of the engine reads.
pub record Villes : Type 0 where
  pub villes : List Ville
  pub events : List VilleMessage

abbrev pub VilleTask : Type 0 → Type 0
VilleTask A = Action Villes VilleError A

abbrev pub ville_key : Ville → ℕ
ville_key v = v.id

unfoldable pub put_ville : Ville → Villes → Villes
put_ville v s = record s { villes = save ville_key v s.villes }

abbrev pub emit_ville : VilleMessage → Villes → Villes
emit_ville e s = record s { events = s.events ++ (e ∷ []) }

-- KER-ADM-03: a node that is given must be published.
abbrev pub check_noeud : (ℕ → Bool) → Option ℕ → VilleTask (Unit {0})
check_noeud published none = pure tt
check_noeud published (some noeud) =
    raise_if (not (published noeud)) (unpublished_hierarchical_node noeud)

-- `CreateVilleUseCase.execute`
unfoldable pub add_ville : (ℕ → Bool) → (ℕ → Bool) → ℕ → ℕ → ℕ → Text → Option ℕ → VilleTask ℕ
add_ville exists published now id pays_id nom noeud = do
  raise_if (not (exists pays_id)) pays_not_found
  check_noeud published (given noeud)
  modify (put_ville (create_ville now id pays_id nom noeud))
  modify (emit_ville (ville_created noeud))
  pure id

unfoldable pub get_ville : ℕ → VilleTask Ville
get_ville id = do
  found ← gets (λ s. find_by_key ville_key id s.villes)
  or_raise found ville_not_found

-- `MoveVilleUseCase.execute`
unfoldable pub move_ville : (ℕ → Bool) → ℕ → ℕ → Option ℕ → VilleTask (Unit {0})
unfolding get_ville
move_ville published now id noeud = do
  ville ← get_ville id
  check_noeud published (given noeud)
  modify (put_ville (place_ville now noeud ville))
  modify (emit_ville (ville_moved ville.referentiel_hierarchique_id noeud))

-- `SetVilleActivationUseCase`: `deactivate` and `reactivate`
unfoldable pub set_ville_activation : ℕ → ℕ → Bool → VilleTask (Unit {0})
unfolding get_ville
set_ville_activation now id est_actif = do
  ville ← get_ville id
  modify (put_ville (activate_ville now est_actif ville))
