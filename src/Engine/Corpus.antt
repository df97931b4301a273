-- ===== src/Engine/Corpus.antt =====
-- The use cases on versioned corpora and on their elements
-- (src/referential-engine/application/use-cases/corpus-versionne.use-cases.ts and
-- corpus-element.use-cases.ts).
use core_kernel.Prelude.{
  given, ℕ, Bool, true, false, not, Option, none, some, List, [], ◌∷◌, ◌++◌, Action, pure, gets,
  or_raise, lift, modify, raise_if, ◌>>=◌, ◌>>◌, Text, ◌==◌, filter, find_by_key, save,
}
use core_kernel.Engine.Workflow.{
  EngineError, noeud_not_found, corpus_not_found, element_not_found, parent_not_in_same_corpus,
  circular_element,
}
use core_kernel.Engine.Noeud.{Noeud}
use core_kernel.Engine.Hierarchy.{noeud_key}
use core_kernel.Engine.Versions.{
  CorpusVersionne, CorpusElement, AttachCommand, ElementUpdates, create_gouvernance, create_corpus,
  update_libelle, update_gouvernance, publish_version, archive_version, create_element,
  update_element_details, reattach_element_to_parent, would_create_cycle_in_corpus,
}

pub data CorpusEvent : Type 0 where
  corpus_created : ℕ → ℕ → Text → CorpusEvent
  corpus_published : ℕ → ℕ → Text → CorpusEvent
  corpus_archived : ℕ → CorpusEvent
  element_created : ℕ → ℕ → CorpusEvent

pub record Corpora : Type 0 where
  pub noeuds : List Noeud
  pub corpora : List CorpusVersionne
  pub elements : List CorpusElement
  pub events : List CorpusEvent

abbrev pub CorpusTask : Type 0 → Type 0
CorpusTask A = Action Corpora EngineError A

abbrev pub corpus_key : CorpusVersionne → ℕ
corpus_key c = c.id

abbrev pub element_key : CorpusElement → ℕ
element_key e = e.id

abbrev pub put_corpus : CorpusVersionne → Corpora → Corpora
put_corpus c s = record s { corpora = save corpus_key c s.corpora }

abbrev pub put_element : CorpusElement → Corpora → Corpora
put_element e s = record s { elements = save element_key e s.elements }

abbrev pub emit_corpus : CorpusEvent → Corpora → Corpora
emit_corpus e s = record s { events = s.events ++ (e ∷ []) }

unfoldable pub get_corpus : ℕ → CorpusTask CorpusVersionne
get_corpus id = do or_raise (← gets (λ s. find_by_key corpus_key id s.corpora)) corpus_not_found

unfoldable pub get_element : ℕ → CorpusTask CorpusElement
get_element id = do or_raise (← gets (λ s. find_by_key element_key id s.elements)) element_not_found

-- `CreateCorpusVersionneCommand`
pub record CreateCorpusCommand : Type 0 where
  pub pays_id : ℕ
  pub code_domaine : Text
  pub libelle_version : Text
  pub organisme_certificateur : Text
  pub statut_confiance : Text
  pub source : Text

-- `CreateCorpusVersionneUseCase.execute`
unfoldable create_corpus_versionne : ℕ → ℕ → CreateCorpusCommand → CorpusTask ℕ
create_corpus_versionne now id c = do
  gouvernance ←
      lift (create_gouvernance c.organisme_certificateur c.statut_confiance c.source none now)
  let corpus = create_corpus id c.pays_id c.code_domaine c.libelle_version gouvernance now
  modify (put_corpus corpus)
  modify (emit_corpus (corpus_created corpus.id c.pays_id c.code_domaine))
  pure corpus.id

-- `UpdateCorpusVersionneUseCase.updateDetails`
unfoldable update_corpus_details : ℕ → ℕ → Option Text → CorpusTask (Unit {0})
unfolding get_corpus
update_corpus_details now id libelle = do
  corpus ← get_corpus id
  modify (put_corpus (update_libelle libelle now corpus))

-- `UpdateCorpusVersionneUseCase.updateGouvernance`
unfoldable update_corpus_gouvernance : ℕ → ℕ → Text → Text → Text → CorpusTask (Unit {0})
unfolding get_corpus
update_corpus_gouvernance now id organisme statut source = do
  corpus ← get_corpus id
  gouvernance ← lift (create_gouvernance organisme statut source none now)
  modify (put_corpus (update_gouvernance gouvernance now corpus))

-- `PublishCorpusUseCase.execute`
unfoldable publish_corpus : ℕ → ℕ → CorpusTask (Unit {0})
unfolding get_corpus
publish_corpus now id = do
  corpus ← get_corpus id
  published ← lift (publish_version now corpus)
  modify (put_corpus published)
  modify (emit_corpus (corpus_published published.id published.pays_id published.code_domaine))

-- `ArchiveCorpusUseCase.execute`
unfoldable archive_corpus : ℕ → ℕ → CorpusTask (Unit {0})
unfolding get_corpus
archive_corpus now id = do
  corpus ← get_corpus id
  archived ← lift (archive_version now corpus)
  modify (put_corpus archived)
  modify (emit_corpus (corpus_archived archived.id))

-- `findByCorpusVersionne`
abbrev pub find_by_corpus : ℕ → List CorpusElement → List CorpusElement
find_by_corpus corpus_id = filter (λ e. e.corpus_versionne_id == corpus_id)

-- `parent && parent.corpusVersionneId === corpusId`
abbrev pub is_in_corpus : ℕ → Option CorpusElement → Bool
is_in_corpus corpus_id none = false
is_in_corpus corpus_id (some p) = p.corpus_versionne_id == corpus_id

unfoldable pub assert_parent_in_corpus : ℕ → ℕ → CorpusTask (Unit {0})
assert_parent_in_corpus corpus_id parent_id = do
  parent ← gets (λ s. find_by_key element_key parent_id s.elements)
  raise_if (not (is_in_corpus corpus_id parent)) parent_not_in_same_corpus

unfoldable pub check_attached_parent : ℕ → Option ℕ → CorpusTask (Unit {0})
unfolding assert_parent_in_corpus
check_attached_parent corpus_id none = pure tt
check_attached_parent corpus_id (some parent_id) = assert_parent_in_corpus corpus_id parent_id

-- `AttachCorpusElementUseCase.execute`
unfoldable pub attach_element : ℕ → ℕ → AttachCommand → CorpusTask ℕ
unfolding get_corpus check_attached_parent
attach_element now id c = do
  _ ← get_corpus c.corpus_versionne_id
  _ ←
      or_raise (← gets (λ s. find_by_key noeud_key c.referentiel_hierarchique_id s.noeuds))
        noeud_not_found
  check_attached_parent c.corpus_versionne_id (given c.parent_id)
  let element = create_element id c now
  modify (put_element element)
  modify (emit_corpus (element_created element.id c.corpus_versionne_id))
  pure element.id

-- `UpdateCorpusElementUseCase.execute`
unfoldable update_element : ℕ → ℕ → ElementUpdates → CorpusTask (Unit {0})
unfolding get_element
update_element now id updates = do
  element ← get_element id
  modify (put_element (update_element_details updates now element))

-- The test for a cycle answers; a walk without answer would count as a refusal, and never occurs.
abbrev pub refuses : Option Bool → Bool
refuses none = true
refuses (some b) = b

unfoldable pub check_new_parent : ℕ → CorpusElement → Option ℕ → CorpusTask (Unit {0})
unfolding assert_parent_in_corpus
check_new_parent id element none = pure tt
check_new_parent id element (some parent_id) = do
  assert_parent_in_corpus element.corpus_versionne_id parent_id
  elements ← gets (λ s. find_by_corpus element.corpus_versionne_id s.elements)
  raise_if (refuses (would_create_cycle_in_corpus elements id parent_id)) circular_element

-- `ReattachCorpusElementUseCase.execute`
unfoldable pub reattach_element : ℕ → ℕ → Option ℕ → CorpusTask (Unit {0})
unfolding get_element check_new_parent
reattach_element now id parent_id = do
  element ← get_element id
  check_new_parent id element (given parent_id)
  modify (put_element (reattach_element_to_parent parent_id now element))
