-- ===== src/Engine/Versions.antt =====
-- A versioned corpus and the governance data of it
-- (src/referential-engine/domain/entities/gouvernance.ts and corpus-versionne.entity.ts), with the
-- entity of its elements (corpus-element.entity.ts beside them).
use core_kernel.Prelude.{
  ℕ, Bool, true, false, not, Option, none, some, List, [], ◌∷◌, Result, ok, and_then, throw_if,
  Text, trim, codes, text_eq, any, or_else, if◌then◌else◌, ◌==◌, length, ◌+◌,
}
use core_kernel.Common.Parents.{walk}
use core_kernel.Engine.Workflow.{
  StatutCorpus, EngineError, missing_organisme, invalid_confiance, assert_corpus_transition_allowed,
}

pub record Gouvernance : Type 0 where
  pub organisme_certificateur : Text
  pub statut_confiance : Text
  pub source : Text
  pub date_derniere_verification : ℕ

abbrev statuts_confiance_valides : List Text
statuts_confiance_valides = codes "ELEVE" ∷ codes "MOYEN" ∷ codes "A_VERIFIER" ∷ []

abbrev is_empty : Text → Bool
is_empty [] = true
is_empty (_ ∷ _) = false

unfoldable pub create_gouvernance :
    Text → Text → Text → Option ℕ → ℕ → Result EngineError Gouvernance
create_gouvernance organisme statut source verification now =
    and_then (throw_if (is_empty (trim organisme)) missing_organisme) (λ _.
      and_then
        (throw_if (not (any (text_eq statut) statuts_confiance_valides)) (invalid_confiance statut))
        (λ _. ok (record {
          organisme_certificateur = trim organisme;
          statut_confiance = statut;
          source = trim source;
          date_derniere_verification = or_else verification now;
        })))

pub record CorpusVersionne : Type 0 where
  pub id : ℕ
  pub pays_id : ℕ
  pub code_domaine : Text
  pub libelle_version : Text
  pub statut : StatutCorpus
  pub date_publication : Option ℕ
  pub gouvernance : Gouvernance
  pub cree_le : ℕ
  pub modifie_le : ℕ

unfoldable pub create_corpus : ℕ → ℕ → Text → Text → Gouvernance → ℕ → CorpusVersionne
create_corpus id pays_id code_domaine libelle gouvernance now = record {
  id = id;
  pays_id = pays_id;
  code_domaine = code_domaine;
  libelle_version = trim libelle;
  statut = StatutCorpus.brouillon;
  date_publication = none;
  gouvernance = gouvernance;
  cree_le = now;
  modifie_le = now;
}

unfoldable pub update_libelle : Option Text → ℕ → CorpusVersionne → CorpusVersionne
update_libelle libelle now c = record c {
  libelle_version = or_else libelle c.libelle_version;
  modifie_le = now;
}

unfoldable pub update_gouvernance : Gouvernance → ℕ → CorpusVersionne → CorpusVersionne
update_gouvernance g now c = record c { gouvernance = g; modifie_le = now }

unfoldable pub publish_version : ℕ → CorpusVersionne → Result EngineError CorpusVersionne
publish_version now c =
    and_then (assert_corpus_transition_allowed c.statut StatutCorpus.publie) (λ _.
      ok (record c { statut = StatutCorpus.publie; date_publication = some now; modifie_le = now }))

unfoldable pub archive_version : ℕ → CorpusVersionne → Result EngineError CorpusVersionne
archive_version now c =
    and_then (assert_corpus_transition_allowed c.statut StatutCorpus.archive)
      (λ _. ok (record c { statut = StatutCorpus.archive; modifie_le = now }))

-- The metadata of an element are kept as they come; here they are their JSON text.
pub record CorpusElement : Type 0 where
  pub id : ℕ
  pub corpus_versionne_id : ℕ
  pub referentiel_hierarchique_id : ℕ
  pub parent_id : Option ℕ
  pub nom : Text
  pub valeur_ou_coefficient : Option Text
  pub metadata : Option Text
  pub ordre : ℕ
  pub cree_le : ℕ
  pub modifie_le : ℕ

-- `AttachCorpusElementCommand`
pub record AttachCommand : Type 0 where
  pub corpus_versionne_id : ℕ
  pub referentiel_hierarchique_id : ℕ
  pub parent_id : Option ℕ
  pub nom : Text
  pub valeur_ou_coefficient : Option Text
  pub metadata : Option Text
  pub ordre : Option ℕ

unfoldable pub create_element : ℕ → AttachCommand → ℕ → CorpusElement
create_element id c now = record {
  id = id;
  corpus_versionne_id = c.corpus_versionne_id;
  referentiel_hierarchique_id = c.referentiel_hierarchique_id;
  parent_id = c.parent_id;
  nom = trim c.nom;
  valeur_ou_coefficient = c.valeur_ou_coefficient;
  metadata = c.metadata;
  ordre = or_else c.ordre 0;
  cree_le = now;
  modifie_le = now;
}

-- What an update names; an absent field keeps its value.
pub record ElementUpdates : Type 0 where
  pub nom : Option Text
  pub valeur_ou_coefficient : Option (Option Text)
  pub metadata : Option (Option Text)
  pub ordre : Option ℕ

unfoldable pub update_element_details : ElementUpdates → ℕ → CorpusElement → CorpusElement
update_element_details u now e = record e {
  nom = or_else u.nom e.nom;
  valeur_ou_coefficient = or_else u.valeur_ou_coefficient e.valeur_ou_coefficient;
  metadata = or_else u.metadata e.metadata;
  ordre = or_else u.ordre e.ordre;
  modifie_le = now;
}

unfoldable pub reattach_element_to_parent : Option ℕ → ℕ → CorpusElement → CorpusElement
reattach_element_to_parent parent_id now e = record e { parent_id = parent_id; modifie_le = now }

-- `parentIndex.get(k)`, the map being built from the elements in their order: the last entry counts.
unfoldable pub parent_index : ℕ → List CorpusElement → Option (Option ℕ)
parent_index k [] = none
parent_index k (e ∷ es) = elim (parent_index k es) [
  | some p ↦ some p
  | none ↦ if e.id == k then some e.parent_id else none
]

-- `parentIndex.get(k) ?? null`
abbrev pub parent_of : List CorpusElement → ℕ → Option ℕ
parent_of es k = or_else (parent_index k es) none

-- `wouldCreateCycleInCorpus`, with fuel for one visit of each element and two more steps
unfoldable pub would_create_cycle_in_corpus : List CorpusElement → ℕ → ℕ → Option Bool
unfolding parent_index
would_create_cycle_in_corpus es element_id candidate =
    walk (length es + 2) (parent_of es) element_id (some candidate) []
