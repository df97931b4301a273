-- ===== src/Engine/Forest.antt =====
-- The elements of a corpus stay a forest under the use cases that place them
-- (`AttachCorpusElementUseCase`, `ReattachCorpusElementUseCase`).
use core_kernel.Prelude.{
  ℕ, ◌≡◌, refl, sym, subst, ◌∙◌, inl, inr, false, none, some, List, [], ◌∷◌, arith, ◌==◌, ==_iff,
  if◌then◌else◌, Bool-cases, find_by_key, save, IsKeyed, find_by_key-save, save-IsKeyed,
}
use core_kernel.Engine.Versions.{CorpusElement, parent_index, parent_of}
use core_kernel.Engine.Corpus.{Corpora, element_key, find_by_corpus, put_element}
use core_kernel.Common.Ancestry.{Below}
use core_kernel.Common.Forest.{IsAcyclic, update-IsAcyclic}

-- The parents in one corpus after an element was saved.
pub parent_index-absent :
    (k id : ℕ) (es : List CorpusElement)
    → find_by_key element_key id es ≡ none
    → parent_index id (find_by_corpus k es) ≡ none
unfolding parent_index
parent_index-absent k id [] h = refl
parent_index-absent k id (e ∷ es) h = ground (arith, parent_index-absent k id es)

parent_index-save :
    (k id : ℕ) (e : CorpusElement) (es : List CorpusElement)
    → IsKeyed element_key es
    → e.corpus_versionne_id ≡ k
    → parent_index id (find_by_corpus k (save element_key e es))
      ≡ (if e.id == id then some e.parent_id else parent_index id (find_by_corpus k es))
unfolding parent_index
parent_index-save k id e [] keyed c = ground arith
parent_index-save k id e (x ∷ es) keyed c =
    ground (arith, parent_index-save k id e es, parent_index-absent k x.id es)

find_by_corpus-save :
    (k : ℕ) (e : CorpusElement) (es : List CorpusElement)
    → (e.corpus_versionne_id == k) ≡ false
    → ((old : CorpusElement)
        → find_by_key element_key e.id es ≡ some old
        → old.corpus_versionne_id ≡ e.corpus_versionne_id)
    → find_by_corpus k (save element_key e es) ≡ find_by_corpus k es
find_by_corpus-save k e [] other same = ground arith
find_by_corpus-save k e (x ∷ es) other same = elim (Bool-cases (x.id == e.id)) [
  | inl at ↦ let q = same x (ground arith) in ground arith
  | inr off ↦
      let rest = find_by_corpus-save k e es other (λ old f. same old (ground arith)) in ground arith
]

-- The elements of the state: one row each, none with the empty identifier, and in no corpus a loop
-- of parents.
pub record IsForest (s : Corpora) : Type 0 where
  pub keyed : IsKeyed element_key s.elements
  pub named : find_by_key element_key 0 s.elements ≡ none
  pub acyclic : (k : ℕ) → IsAcyclic (parent_of (find_by_corpus k s.elements))

pub put_element-IsForest :
    (e : CorpusElement) (s : Corpora)
    → IsForest s
    → (e.id == 0) ≡ false
    → ((old : CorpusElement)
        → find_by_key element_key e.id s.elements ≡ some old
        → old.corpus_versionne_id ≡ e.corpus_versionne_id)
    → ((p : ℕ)
        → e.parent_id ≡ some p
        → Below (parent_of (find_by_corpus e.corpus_versionne_id s.elements)) e.id p
        → ⊥)
    → IsForest (put_element e s)
put_element-IsForest e s f nz same clear = record {
  keyed = save-IsKeyed element_key e s.elements f.keyed;
  named = find_by_key-save element_key 0 e s.elements ∙ rw nz f.named;
  acyclic = λ k. elim (Bool-cases (e.corpus_versionne_id == k)) [
    | inl at ↦
        let q : e.corpus_versionne_id ≡ k = (==_iff e.corpus_versionne_id k).0 at in
        let changes : (x : ℕ)
            → parent_index x (find_by_corpus k (save element_key e s.elements)) ≡ (
                if e.id == x
                then some e.parent_id
                else parent_index x (find_by_corpus k s.elements)) =
          λ x. parent_index-save k x e s.elements f.keyed q in
        update-IsAcyclic e.id e.parent_id (parent_of (find_by_corpus k s.elements))
          (parent_of (find_by_corpus k (save element_key e s.elements)))
          (let c = changes e.id in ground arith, λ x off. let c = changes x in ground arith)
          (λ p h r.
            clear p h
              (subst (λ z. Below (parent_of (find_by_corpus z s.elements)) e.id p) (sym q) r))
          (f.acyclic k)
    | inr off ↦
        subst (λ es. IsAcyclic (parent_of es)) (sym (find_by_corpus-save k e s.elements off same))
          (f.acyclic k)
  ];
}
