-- ===== src/Engine/Noeud.antt =====
-- A node of the hierarchy and its materialised path
-- (src/referential-engine/domain/entities/noeud-hierarchique.entity.ts), and the named levels
-- (niveau-administratif.entity.ts beside it). `show` writes an identifier as text.
use core_kernel.Prelude.{
  ℕ, ◌+◌, Bool, true, false, ◌&&◌, not, Option, none, some, List, [], ◌∷◌, ◌++◌, Result, ok, err,
  and_then, throw_if, Text, trim, or_else, ◌==◌, if◌then◌else◌, any, JsNumber, natural,
}
use core_kernel.Engine.Workflow.{
  Statut, EngineError, cross_country, published_children, invalid_rang, statut_eq,
  assert_transition_allowed,
}

pub record Noeud : Type 0 where
  pub id : ℕ
  pub pays_id : ℕ
  pub code_domaine : Text
  pub parent_id : Option ℕ
  pub chemin : Text
  pub appellation_locale : Text
  pub rang_normalise : ℕ
  pub ordre : ℕ
  pub est_noeud_terminal : Bool
  pub est_actif : Bool
  pub statut_workflow : Statut
  pub cree_le : ℕ
  pub modifie_le : ℕ

-- What is given for a new node beside its place.
pub record Details : Type 0 where
  pub appellation_locale : Text
  pub ordre : Option ℕ
  pub est_noeud_terminal : Option Bool

abbrev pub slash : ℕ
slash = b'/'

module _ (show : ℕ → Text) where
  -- `/${id}/`
  abbrev pub root_path : ℕ → Text
  root_path id = slash ∷ (show id ++ (slash ∷ []))

  -- `${parent.chemin}${id}/`
  abbrev pub child_path : Text → ℕ → Text
  child_path chemin id = chemin ++ (show id ++ (slash ∷ []))

  unfoldable pub create_root : ℕ → ℕ → Text → Details → ℕ → Noeud
  create_root id pays_id code_domaine d now = record {
    id = id;
    pays_id = pays_id;
    code_domaine = code_domaine;
    parent_id = none;
    chemin = root_path id;
    appellation_locale = trim d.appellation_locale;
    rang_normalise = 1;
    ordre = or_else d.ordre 0;
    est_noeud_terminal = or_else d.est_noeud_terminal false;
    est_actif = true;
    statut_workflow = Statut.brouillon;
    cree_le = now;
    modifie_le = now;
  }

  unfoldable pub create_child : ℕ → Noeud → Details → ℕ → Noeud
  create_child id parent d now = record {
    id = id;
    pays_id = parent.pays_id;
    code_domaine = parent.code_domaine;
    parent_id = some parent.id;
    chemin = child_path parent.chemin id;
    appellation_locale = trim d.appellation_locale;
    rang_normalise = parent.rang_normalise + 1;
    ordre = or_else d.ordre 0;
    est_noeud_terminal = or_else d.est_noeud_terminal false;
    est_actif = true;
    statut_workflow = Statut.brouillon;
    cree_le = now;
    modifie_le = now;
  }

  unfoldable pub reattach_to_parent : Option Noeud → ℕ → Noeud → Result EngineError Noeud
  reattach_to_parent none now n =
      ok (record n {
        parent_id = none;
        chemin = root_path n.id;
        rang_normalise = 1;
        modifie_le = now;
      })
  reattach_to_parent (some p) now n =
      if not (p.pays_id == n.pays_id)
      then err cross_country
      else ok (record n {
        parent_id = some p.id;
        chemin = child_path p.chemin n.id;
        rang_normalise = p.rang_normalise + 1;
        modifie_le = now;
      })

pub update_details : Option Text → Option ℕ → ℕ → Noeud → Noeud
update_details appellation ordre now n = record n {
  appellation_locale = or_else appellation n.appellation_locale;
  ordre = or_else ordre n.ordre;
  modifie_le = now;
}

-- `submitForReview`, `validate`, `rejectToDraft` and `publish`, by the status that they ask for
unfoldable pub change_statut : Statut → ℕ → Noeud → Result EngineError Noeud
change_statut to now n =
    and_then (assert_transition_allowed n.statut_workflow to)
      (λ _. ok (record n { statut_workflow = to; modifie_le = now }))

unfoldable pub deactivate : ℕ → Noeud → Noeud
deactivate now n = record n { est_actif = false; modifie_le = now }

unfoldable pub reactivate : ℕ → Noeud → Noeud
reactivate now n = record n { est_actif = true; modifie_le = now }

-- `text.startsWith(prefix)`, the prefix first
unfoldable pub starts_with : Text → Text → Bool
starts_with [] t = true
starts_with (_ ∷ _) [] = false
starts_with (x ∷ s) (y ∷ t) = x == y && starts_with s t

unfoldable pub would_create_cycle : Text → Text → Bool
would_create_cycle chemin_noeud chemin_candidat = starts_with chemin_noeud chemin_candidat

abbrev pub is_published_active : Noeud → Bool
is_published_active n = statut_eq Statut.publie n.statut_workflow && n.est_actif

unfoldable pub assert_no_published_children : List Noeud → Result EngineError (Unit {0})
assert_no_published_children enfants = throw_if (any is_published_active enfants) published_children

pub record Niveau : Type 0 where
  pub id : ℕ
  pub pays_id : ℕ
  pub rang : ℕ
  pub nom : Text
  pub est_actif : Bool
  pub cree_le : ℕ

unfoldable create_niveau : ℕ → ℕ → JsNumber → Text → ℕ → Result EngineError Niveau
create_niveau id pays_id (natural rang) nom now =
    if rang == 0
    then err (invalid_rang (natural rang))
    else ok (record {
      id = id;
      pays_id = pays_id;
      rang = rang;
      nom = trim nom;
      est_actif = true;
      cree_le = now;
    })
create_niveau id pays_id rang nom now = err (invalid_rang rang)

unfoldable update_nom : Text → Niveau → Niveau
update_nom nom n = record n { nom = trim nom }

unfoldable deactivate_niveau : Niveau → Niveau
deactivate_niveau n = record n { est_actif = false }

unfoldable reactivate_niveau : Niveau → Niveau
reactivate_niveau n = record n { est_actif = true }
