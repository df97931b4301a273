-- ===== src/Engine/Hierarchy.antt =====
-- The tables of the engine and the use cases on the hierarchy
-- (src/referential-engine/application/use-cases/noeud-hierarchique.use-cases.ts), and the counters of
-- attached cities in the repository.
use core_kernel.Prelude.{
  given, ℕ, ◌+◌, ◌-◌, Bool, ◌&&◌, not, Option, none, some, List, [], ◌∷◌, ◌++◌, Action, pure, raise,
  gets, or_raise, lift, modify, raise_if, ◌>>=◌, ◌>>◌, Text, ltb, ◌==◌, same?, filter, find?,
  find_by_key, save, is_some,
}
use core_kernel.Engine.Workflow.{
  Statut, EngineError, circular, attached_villes, noeud_not_found, undefined_niveau,
  missing_root_fields,
}
use core_kernel.Engine.Noeud.{
  Noeud, Niveau, Details, create_root, create_child, reattach_to_parent, change_statut, deactivate,
  reactivate, update_details, would_create_cycle, assert_no_published_children,
}

pub data EngineEvent : Type 0 where
  node_created : ℕ → ℕ → Option ℕ → ℕ → EngineEvent
  node_published : ℕ → ℕ → EngineEvent
  branch_reattached : ℕ → Option ℕ → Text → EngineEvent
  node_deactivated : ℕ → EngineEvent

-- A row of `compteur_villes_rattachees`.
pub record Compteur : Type 0 where
  pub noeud_id : ℕ
  pub nombre_villes : ℕ

pub record Store : Type 0 where
  pub noeuds : List Noeud
  pub niveaux : List Niveau
  pub compteurs : List Compteur
  pub events : List EngineEvent

abbrev pub Task : Type 0 → Type 0
Task A = Action Store EngineError A

abbrev pub noeud_key : Noeud → ℕ
noeud_key n = n.id

abbrev pub compteur_key : Compteur → ℕ
compteur_key c = c.noeud_id

abbrev pub count_of : Option Compteur → ℕ
count_of none = 0
count_of (some c) = c.nombre_villes

-- `getCompte`
unfoldable pub get_compte : ℕ → List Compteur → ℕ
get_compte id cs = count_of (find_by_key compteur_key id cs)

-- `incrementer`: the `ON CONFLICT` upsert
unfoldable pub incrementer : ℕ → List Compteur → List Compteur
unfolding get_compte
incrementer id cs =
    save compteur_key (record { noeud_id = id; nombre_villes = get_compte id cs + 1 }) cs

-- `decrementer`: `GREATEST(nombre_villes - 1, 0)`, and a row of 0 where there was none
unfoldable pub decrementer : ℕ → List Compteur → List Compteur
unfolding get_compte
decrementer id cs =
    save compteur_key (record { noeud_id = id; nombre_villes = get_compte id cs - 1 }) cs

abbrev pub put_noeud : Noeud → Store → Store
put_noeud n s = record s { noeuds = save noeud_key n s.noeuds }

abbrev pub emit : EngineEvent → Store → Store
emit e s = record s { events = s.events ++ (e ∷ []) }

-- `findChildren`
abbrev pub find_children : ℕ → List Noeud → List Noeud
find_children id = filter (λ n. same? n.parent_id (some id))

abbrev is_niveau : ℕ → ℕ → Niveau → Bool
is_niveau pays_id rang n = n.pays_id == pays_id && n.rang == rang

-- `findByPaysAndRang`
abbrev pub has_niveau : ℕ → ℕ → List Niveau → Bool
has_niveau pays_id rang ns = is_some (find? (is_niveau pays_id rang) ns)

pub record CreateCommand : Type 0 where
  pub pays_id : Option ℕ
  pub code_domaine : Option Text
  pub parent_id : Option ℕ
  pub details : Details

unfoldable pub get_noeud : ℕ → Task Noeud
get_noeud id = do or_raise (← gets (λ s. find_by_key noeud_key id s.noeuds)) noeud_not_found

unfoldable pub assert_niveau_defini : ℕ → ℕ → Task (Unit {0})
assert_niveau_defini pays_id rang = do
  defined ← gets (λ s. has_niveau pays_id rang s.niveaux)
  raise_if (not defined) (undefined_niveau pays_id rang)

-- `command.codeDomaine` where it is given and not empty
abbrev pub given_text : Option Text → Option Text
given_text none = none
given_text (some []) = none
given_text (some (c ∷ t)) = some (c ∷ t)

-- KER-ADM-04: neither a published child nor an attached city.
unfoldable pub assert_free : ℕ → Task (Unit {0})
unfolding get_compte
assert_free id = do
  lift (assert_no_published_children (← gets (λ s. find_children id s.noeuds)))
  villes ← gets (λ s. get_compte id s.compteurs)
  raise_if (ltb 0 villes) attached_villes

module _ (show : ℕ → Text) where
  unfoldable pub new_root : ℕ → ℕ → Details → Option ℕ → Option Text → Task Noeud
  unfolding assert_niveau_defini
  new_root now id d (some pays_id) (some code) = do
    assert_niveau_defini pays_id 1
    pure (create_root show id pays_id code d now)
  new_root now id d _ _ = raise missing_root_fields

  unfoldable pub new_child : ℕ → ℕ → Details → ℕ → Task Noeud
  unfolding assert_niveau_defini get_noeud
  new_child now id d parent_id = do
    parent ← get_noeud parent_id
    assert_niveau_defini parent.pays_id (parent.rang_normalise + 1)
    pure (create_child show id parent d now)

  abbrev pub new_noeud : ℕ → ℕ → CreateCommand → Option ℕ → Task Noeud
  new_noeud now id c (some parent_id) = new_child now id c.details parent_id
  new_noeud now id c none = new_root now id c.details (given c.pays_id) (given_text c.code_domaine)

  -- `CreateNoeudUseCase.execute`, `id` being the new identifier
  unfoldable pub create_noeud : ℕ → ℕ → CreateCommand → Task ℕ
  unfolding new_root new_child
  create_noeud now id c = do
    noeud ← new_noeud now id c (given c.parent_id)
    modify (put_noeud noeud)
    modify (emit (node_created noeud.id noeud.pays_id noeud.parent_id noeud.rang_normalise))
    pure noeud.id

  -- The new parent of a reattachment, checked against the paths.
  unfoldable pub new_parent : Noeud → Option ℕ → Task (Option Noeud)
  unfolding get_noeud
  new_parent noeud none = pure none
  new_parent noeud (some parent_id) = do
    parent ← get_noeud parent_id
    raise_if (would_create_cycle noeud.chemin parent.chemin) circular
    pure (some parent)

  -- `ReattachNoeudUseCase.execute`
  unfoldable pub reattach_noeud : ℕ → ℕ → Option ℕ → Task (Unit {0})
  unfolding get_noeud new_parent assert_free
  reattach_noeud now id parent_id = do
    noeud ← get_noeud id
    assert_free id
    parent ← new_parent noeud (given parent_id)
    moved ← lift (reattach_to_parent show parent now noeud)
    modify (put_noeud moved)
    modify (emit (branch_reattached moved.id parent_id moved.chemin))

-- `UpdateNoeudUseCase.execute`
unfoldable update_noeud : ℕ → ℕ → Option Text → Option ℕ → Task (Unit {0})
unfolding get_noeud
update_noeud now id appellation ordre = do
  noeud ← get_noeud id
  modify (put_noeud (update_details appellation ordre now noeud))

-- `submitForReview`, `validate` and `rejectToDraft` of `TransitionNoeudWorkflowUseCase`
unfoldable transition_noeud : ℕ → Statut → ℕ → Task (Unit {0})
unfolding get_noeud
transition_noeud now to id = do
  noeud ← get_noeud id
  changed ← lift (change_statut to now noeud)
  modify (put_noeud changed)

-- `publish` of `TransitionNoeudWorkflowUseCase`
unfoldable publish_noeud : ℕ → ℕ → Task (Unit {0})
unfolding get_noeud
publish_noeud now id = do
  noeud ← get_noeud id
  changed ← lift (change_statut Statut.publie now noeud)
  modify (put_noeud changed)
  modify (emit (node_published changed.id changed.pays_id))

-- `SetNoeudActivationUseCase`
unfoldable deactivate_noeud : ℕ → ℕ → Task (Unit {0})
unfolding get_noeud assert_free
deactivate_noeud now id = do
  noeud ← get_noeud id
  assert_free id
  modify (put_noeud (deactivate now noeud))
  modify (emit (node_deactivated noeud.id))

unfoldable reactivate_noeud : ℕ → ℕ → Task (Unit {0})
unfolding get_noeud
reactivate_noeud now id = do noeud ← get_noeud id; modify (put_noeud (reactivate now noeud))
