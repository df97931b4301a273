-- ===== src/Engine/Workflow.antt =====
-- The publication workflow (src/referential-engine/domain/entities/workflow.ts), the life cycle of
-- corpora (corpus-workflow.ts beside it) and the errors of the engine.
use core_kernel.Prelude.{
  ℕ, Bool, true, false, not, List, [], ◌∷◌, Result, throw_if, any, Text, JsNumber,
}

-- `StatutWorkflowEngine`
pub data Statut : Type 0 where
  brouillon en_revision valide publie : Statut

-- `StatutCorpusWorkflow`
pub data StatutCorpus : Type 0 where
  brouillon publie archive : StatutCorpus

pub data EngineError : Type 0 where
  transition : Statut → Statut → EngineError
  corpus_transition : StatutCorpus → StatutCorpus → EngineError
  cross_country : EngineError
  circular : EngineError
  published_children : EngineError
  attached_villes : EngineError
  noeud_not_found : EngineError
  undefined_niveau : ℕ → ℕ → EngineError
  missing_root_fields : EngineError
  invalid_rang : JsNumber → EngineError
  missing_organisme : EngineError
  invalid_confiance : Text → EngineError
  corpus_not_found : EngineError
  element_not_found : EngineError
  parent_not_in_same_corpus : EngineError
  circular_element : EngineError
  regle_not_attached_to_terminal_node : EngineError
  regle_not_found : EngineError

abbrev pub statut_eq : Statut → Statut → Bool
statut_eq Statut.brouillon Statut.brouillon = true
statut_eq Statut.en_revision Statut.en_revision = true
statut_eq Statut.valide Statut.valide = true
statut_eq Statut.publie Statut.publie = true
statut_eq _ _ = false

unfoldable allowed_transitions : Statut → List Statut
allowed_transitions Statut.brouillon = Statut.en_revision ∷ []
allowed_transitions Statut.en_revision = Statut.valide ∷ Statut.brouillon ∷ []
allowed_transitions Statut.valide = Statut.publie ∷ Statut.en_revision ∷ []
allowed_transitions Statut.publie = []

unfoldable pub assert_transition_allowed : Statut → Statut → Result EngineError (Unit {0})
unfolding allowed_transitions
assert_transition_allowed from to =
    throw_if (not (any (statut_eq to) (allowed_transitions from))) (transition from to)

abbrev pub corpus_statut_eq : StatutCorpus → StatutCorpus → Bool
corpus_statut_eq StatutCorpus.brouillon StatutCorpus.brouillon = true
corpus_statut_eq StatutCorpus.publie StatutCorpus.publie = true
corpus_statut_eq StatutCorpus.archive StatutCorpus.archive = true
corpus_statut_eq _ _ = false

unfoldable corpus_allowed_transitions : StatutCorpus → List StatutCorpus
corpus_allowed_transitions StatutCorpus.brouillon = StatutCorpus.publie ∷ []
corpus_allowed_transitions StatutCorpus.publie = StatutCorpus.archive ∷ []
corpus_allowed_transitions StatutCorpus.archive = []

unfoldable pub assert_corpus_transition_allowed :
    StatutCorpus → StatutCorpus → Result EngineError (Unit {0})
unfolding corpus_allowed_transitions
assert_corpus_transition_allowed from to =
    throw_if (not (any (corpus_statut_eq to) (corpus_allowed_transitions from)))
      (corpus_transition from to)
