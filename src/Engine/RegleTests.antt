-- ===== src/Engine/RegleTests.antt =====
-- The rules of a small hierarchy.
use core_kernel.Prelude.{
  ◌≡◌, refl, sym, subst, inl, Member, true, none, [], ◌∷◌, codes, trim, text_eq,
}
use core_kernel.Engine.Workflow as Workflow
use core_kernel.Engine.Workflow.{assert_transition_allowed}
use core_kernel.Engine.Noeud.{Noeud}
use core_kernel.Engine.Versions.{create_gouvernance}
use core_kernel.Engine.Regles.{
  Regle, CreateRegle, Regles, add_regle, transition_regle, create_regle, change_regle, move_regle,
  get_regle,
}
use core_kernel.Engine.Terminal.{IsReached, IsAttached, reached-IsAttached}

abbrev leaf : Noeud
leaf = record {
  id = 5;
  pays_id = 1;
  code_domaine = codes "TAX";
  parent_id = none;
  chemin = codes "/5/";
  appellation_locale = codes "VAT";
  rang_normalise = 1;
  ordre = 0;
  est_noeud_terminal = true;
  est_actif = true;
  statut_workflow = Workflow.Statut.publie;
  cree_le = 0;
  modifie_le = 0;
}

abbrev rate : CreateRegle
rate = record {
  referentiel_hierarchique_id = 5;
  nom = codes "Rate";
  sigle = none;
  valeur = codes "18";
  metadata = none;
  organisme_certificateur = codes "DGI";
  statut_confiance = codes "ELEVE";
  source = codes "Law";
}

abbrev submitted : Regles
submitted =
    (transition_regle Workflow.Statut.en_revision 8 1
      (add_regle (leaf ∷ []) 7 1 rate (record { regles = []; events = [] })).1).1

abbrev rule : Regle
rule = record {
  id = 1;
  referentiel_hierarchique_id = 5;
  code_domaine = codes "TAX";
  nom = codes "Rate";
  sigle = none;
  valeur = codes "18";
  metadata = none;
  gouvernance = record {
    organisme_certificateur = codes "DGI";
    statut_confiance = codes "ELEVE";
    source = codes "Law";
    date_derniere_verification = 7;
  };
  statut_workflow = Workflow.Statut.en_revision;
  est_actif = true;
  cree_le = 7;
  modifie_le = 8;
}

kept_rules : submitted.regles ≡ rule ∷ []
unfolding add_regle create_regle transition_regle change_regle move_regle get_regle
    create_gouvernance assert_transition_allowed trim text_eq
kept_rules = refl

there : Member rule submitted.regles
there = subst (Member rule) (sym kept_rules) (inl refl)

reached-IsAttached_example : IsAttached (leaf ∷ []) rule
reached-IsAttached_example =
    reached-IsAttached (leaf ∷ [])
      (IsReached.moved Workflow.Statut.en_revision 8 1 _
        (IsReached.added 7 1 rate (record { regles = []; events = [] }) IsReached.empty))
      rule there
