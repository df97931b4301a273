-- ===== src/Engine/Regles.antt =====
-- The rules of the terminal nodes
-- (src/referential-engine/domain/entities/referentiel-regle.entity.ts and
-- src/referential-engine/application/use-cases/referentiel-regle.use-cases.ts). The metadata are a JSON value, which
-- no code looks into.
use core_kernel.Prelude.{
  ℕ, Bool, true, ◌&&◌, not, Option, none, some, List, ◌∷◌, Action, Result, ok, and_then, pure, gets,
  or_raise, lift, modify, ◌>>=◌, ◌>>◌, Text, codes, text_eq, trim, or_else, ◌==◌, filter,
  find_by_key, save, if◌then◌else◌,
}
use core_kernel.Audit.Json.{Entries}
use core_kernel.Engine.Workflow.{
  Statut, EngineError, statut_eq, assert_transition_allowed, regle_not_attached_to_terminal_node,
  regle_not_found,
}
use core_kernel.Engine.Noeud.{Noeud}
use core_kernel.Engine.Hierarchy.{noeud_key}
use core_kernel.Engine.Versions.{Gouvernance, create_gouvernance}

abbrev trim_some : Option Text → Option Text
trim_some none = none
trim_some (some t) = some (trim t)

-- `!noeud.estNoeudTerminal`, or no node at all
abbrev pub terminal_node : Option Noeud → Option Noeud
terminal_node none = none
terminal_node (some n) = if n.est_noeud_terminal then some n else none

pub data RegleEvent : Type 0 where
  regle_created regle_published : ℕ → ℕ → RegleEvent

pub record Regle : Type 0 where
  pub id : ℕ
  pub referentiel_hierarchique_id : ℕ
  pub code_domaine : Text
  pub nom : Text
  pub sigle : Option Text
  pub valeur : Text
  pub metadata : Option Entries
  pub gouvernance : Gouvernance
  pub statut_workflow : Statut
  pub est_actif : Bool
  pub cree_le : ℕ
  pub modifie_le : ℕ

pub record CreateRegle : Type 0 where
  pub referentiel_hierarchique_id : ℕ
  pub nom : Text
  pub sigle : Option Text
  pub valeur : Text
  pub metadata : Option Entries
  pub organisme_certificateur : Text
  pub statut_confiance : Text
  pub source : Text

pub record RegleUpdates : Type 0 where
  pub nom : Option Text
  pub sigle : Option (Option Text)
  pub valeur : Option Text
  pub metadata : Option (Option Entries)

pub record Regles : Type 0 where
  pub regles : List Regle
  pub events : List RegleEvent

-- `ReferentielRegle.create`
unfoldable pub create_regle : ℕ → ℕ → Text → Gouvernance → CreateRegle → Regle
create_regle now id code_domaine gouvernance c = record {
  id = id;
  referentiel_hierarchique_id = c.referentiel_hierarchique_id;
  code_domaine = code_domaine;
  nom = trim c.nom;
  sigle = trim_some c.sigle;
  valeur = c.valeur;
  metadata = c.metadata;
  gouvernance = gouvernance;
  statut_workflow = Statut.brouillon;
  est_actif = true;
  cree_le = now;
  modifie_le = now;
}

-- `updateDetails`
unfoldable pub update_regle : RegleUpdates → ℕ → Regle → Regle
update_regle u now r = record r {
  nom = or_else u.nom r.nom;
  sigle = or_else u.sigle r.sigle;
  valeur = or_else u.valeur r.valeur;
  metadata = or_else u.metadata r.metadata;
  modifie_le = now;
}

-- `updateGouvernance`
unfoldable pub govern_regle : Gouvernance → ℕ → Regle → Regle
govern_regle g now r = record r { gouvernance = g; modifie_le = now }

-- `submitForReview`, `validate`, `rejectToDraft` and `publish`, by the status that they ask for
unfoldable pub move_regle : Statut → ℕ → Regle → Result EngineError Regle
move_regle to now r =
    and_then (assert_transition_allowed r.statut_workflow to)
      (λ _. ok (record r { statut_workflow = to; modifie_le = now }))

-- `deactivate` and `reactivate`
unfoldable pub activate_regle : Bool → ℕ → Regle → Regle
activate_regle est_actif now r = record r { est_actif = est_actif; modifie_le = now }

abbrev pub regle_key : Regle → ℕ
regle_key r = r.id

abbrev pub RegleTask : Type 0 → Type 0
RegleTask A = Action Regles EngineError A

abbrev pub put_regle : Regle → Regles → Regles
put_regle r s = record s { regles = save regle_key r s.regles }

abbrev pub emit_regle : RegleEvent → Regles → Regles
emit_regle e s = record s { events = e ∷ s.events }

unfoldable pub get_regle : ℕ → RegleTask Regle
get_regle id = do
  found ← gets (λ s. find_by_key regle_key id s.regles)
  or_raise found regle_not_found

-- `CreateReferentielRegleUseCase.execute`, for the nodes that are there
unfoldable pub add_regle : List Noeud → ℕ → ℕ → CreateRegle → RegleTask ℕ
unfolding create_regle
add_regle noeuds now id c = do
  noeud ←
      or_raise (terminal_node (find_by_key noeud_key c.referentiel_hierarchique_id noeuds))
        regle_not_attached_to_terminal_node
  gouvernance ←
      lift (create_gouvernance c.organisme_certificateur c.statut_confiance c.source none now)
  modify (put_regle (create_regle now id noeud.code_domaine gouvernance c))
  modify (emit_regle (regle_created id c.referentiel_hierarchique_id))
  pure id

-- A use case that changes the rule that it finds.
unfoldable pub change_regle : (Regle → Result EngineError Regle) → ℕ → RegleTask Regle
unfolding get_regle
change_regle f id = do
  regle ← get_regle id
  changed ← lift (f regle)
  modify (put_regle changed)
  pure changed

-- `UpdateReferentielRegleUseCase`
unfoldable pub change_regle_details : RegleUpdates → ℕ → ℕ → RegleTask Regle
unfolding change_regle
change_regle_details u now id = change_regle (λ r. ok (update_regle u now r)) id

-- The rule is sought first, and the governance is checked before it is set.
unfoldable pub change_regle_gouvernance : Text → Text → Text → ℕ → ℕ → RegleTask Regle
unfolding change_regle
change_regle_gouvernance organisme statut source now id =
    change_regle
      (λ r.
        and_then (create_gouvernance organisme statut source none now)
          (λ g. ok (govern_regle g now r)))
      id

-- `TransitionRegleWorkflowUseCase`, without `publish`
unfoldable pub transition_regle : Statut → ℕ → ℕ → RegleTask Regle
unfolding change_regle
transition_regle to now id = change_regle (move_regle to now) id

unfoldable pub publish_regle : ℕ → ℕ → RegleTask (Unit {0})
unfolding change_regle
publish_regle now id = do
  regle ← change_regle (move_regle Statut.publie now) id
  modify (emit_regle (regle_published regle.id regle.referentiel_hierarchique_id))

-- `SetRegleActivationUseCase`
unfoldable pub set_regle_activation : Bool → ℕ → ℕ → RegleTask Regle
unfolding change_regle
set_regle_activation est_actif now id = change_regle (λ r. ok (activate_regle est_actif now r)) id

-- `findByNoeud`
unfoldable pub find_by_noeud : ℕ → List Regle → List Regle
find_by_noeud id = filter (λ r. r.referentiel_hierarchique_id == id)

abbrev pub is_publiee_et_verifiee : ℕ → Regle → Bool
is_publiee_et_verifiee id r =
    r.referentiel_hierarchique_id == id
    && (statut_eq r.statut_workflow Statut.publie
        && (r.est_actif && not (text_eq r.gouvernance.statut_confiance (codes "A_VERIFIER"))))

-- `findPublieesEtVerifieesByNoeud`
unfoldable pub find_publiees_et_verifiees : ℕ → List Regle → List Regle
find_publiees_et_verifiees id = filter (is_publiee_et_verifiee id)
