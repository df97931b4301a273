-- ===== src/Engine/Placement.antt =====
-- Placing elements in a corpus keeps them a forest, in whatever order the requests come.
use core_kernel.Prelude.{
  given, ℕ, ◌≡◌, ◌≢◌, refl, sym, ap, subst, ◌∙◌, inl, inr, Bool, false, Option, none, some, [],
  arith, Result, err, ◌>>◌, modify, ◌>>=◌, pure, gets, or_raise, ◌==◌, ==_iff, Bool-cases,
  Option-cases, or_else, find_by_key, find_by_key-Member, or_raise_cases,
}
use core_kernel.Engine.Workflow.{
  EngineError, corpus_not_found, noeud_not_found, element_not_found, circular_element,
  parent_not_in_same_corpus,
}
use core_kernel.Engine.Noeud.{Noeud}
use core_kernel.Engine.Hierarchy.{noeud_key}
use core_kernel.Engine.Versions.{
  CorpusVersionne, CorpusElement, AttachCommand, parent_of, would_create_cycle_in_corpus,
  create_element, reattach_element_to_parent,
}
use core_kernel.Engine.Corpus.{
  Corpora, CorpusTask, CorpusEvent, corpus_key, element_key, find_by_corpus, is_in_corpus,
  get_corpus, get_element, check_attached_parent, check_new_parent, assert_parent_in_corpus,
  attach_element, reattach_element, put_element, emit_corpus, element_created, refuses,
}
use core_kernel.Common.Ancestry.{Below, here, up}
use core_kernel.Common.Forest.{Below-unreferenced}
use core_kernel.Engine.Ancestry.{would_create_cycle-Below}
use core_kernel.Engine.Forest.{IsForest, put_element-IsForest, parent_index-absent}

-- The new parent does not lie below the element.
abbrev IsClear : CorpusElement → Option ℕ → Corpora → Type 0
IsClear e o s =
    (p : ℕ)
    → o ≡ some p
    → Below (parent_of (find_by_corpus e.corpus_versionne_id s.elements)) e.id p
    → ⊥

not_refused : (o : Option Bool) → refuses o ≡ false → o ≡ some false
not_refused none h = cc
not_refused (some b) h = ground arith

check_new_parent_cases :
    (Post : Result EngineError (Unit {0}) × Corpora → Type 0) (e : CorpusElement) (o : Option ℕ)
    (k : CorpusTask (Unit {0})) (s : Corpora)
    → (IsClear e o s → Post (k s))
    → ((error : EngineError) → Post (err error, s))
    → Post ((check_new_parent e.id e o >> k) s)
unfolding check_new_parent assert_parent_in_corpus
check_new_parent_cases Post e none k s good bad = good (λ p h r. cc)
check_new_parent_cases Post e (some p) k s good bad =
    let parent = find_by_key element_key p s.elements in
    let answer =
      would_create_cycle_in_corpus (find_by_corpus e.corpus_versionne_id s.elements) e.id p in
    elim (Bool-cases (is_in_corpus e.corpus_versionne_id parent)) [
      | inr out ↦ rw out (bad parent_not_in_same_corpus)
      | inl in_corpus ↦ elim (Bool-cases (refuses answer)) [
        | inl no_way ↦ rw in_corpus (rw no_way (bad circular_element))
        | inr free ↦ rw in_corpus (
            rw free (
              good (λ p' h r.
                let q : p ≡ p' = cc in
                let below =
                  (would_create_cycle-Below (find_by_corpus e.corpus_versionne_id s.elements) e.id
                      p).1
                    (subst (Below _ e.id) (sym q) r) in
                let missed = not_refused answer free in cc)))
      ]
    ]

-- An empty identifier leads nowhere.
Below-nothing : (parent : ℕ → Option ℕ) (t a : ℕ) → parent a ≡ none → Below parent t a → a ≡ t
Below-nothing parent t _ h here = refl
Below-nothing parent t a h (up e rest) = cc

reattach-IsClear :
    (e : CorpusElement) (o : Option ℕ) (s : Corpora)
    → IsForest s
    → (e.id == 0) ≡ false
    → IsClear e (given o) s
    → IsClear e o s
reattach-IsClear e o s f nz clear p h r = elim (Bool-cases (p == 0)) [
  | inl empty ↦
      let q : p ≡ 0 = (==_iff p 0).0 empty in
      let absent = parent_index-absent e.corpus_versionne_id 0 s.elements f.named in
      let at =
        Below-nothing (parent_of (find_by_corpus e.corpus_versionne_id s.elements)) e.id p
          (ap (parent_of (find_by_corpus e.corpus_versionne_id s.elements)) q
            ∙ ap (λ m. or_else m none) absent)
          r in
      ground arith
  | inr some_p ↦ clear p (ground arith) r
]

found_id :
    (id : ℕ) (e : CorpusElement) (s : Corpora)
    → IsForest s
    → find_by_key element_key id s.elements ≡ some e
    → (id == 0) ≡ false
found_id id e s f found = elim (Bool-cases (id == 0)) [
  | inl empty ↦ let q : id ≡ 0 = (==_iff id 0).0 empty in let n = f.named in cc
  | inr other ↦ other
]

-- Reattaching an element keeps the forest, whether the request is accepted or refused.
pub reattach_element-IsForest :
    (now id : ℕ) (parent : Option ℕ) (s : Corpora)
    → IsForest s
    → IsForest (reattach_element now id parent s).1
unfolding reattach_element get_element reattach_element_to_parent
reattach_element-IsForest now id parent s f =
    let Post : Result EngineError (Unit {0}) × Corpora → Type 0 = λ o. IsForest o.1 in
    or_raise_cases {A = CorpusElement} {B = Unit {0}} Post (find_by_key element_key id s.elements)
      element_not_found
      (λ e.
        check_new_parent id e (given parent)
        >> modify (put_element (reattach_element_to_parent parent now e)))
      s
      (λ e found.
        let q : e.id ≡ id = (find_by_key-Member element_key id e s.elements found).1 in
        let step = modify (put_element (reattach_element_to_parent parent now e)) in
        let nz : (e.id == 0) ≡ false = ap (λ i. i == 0) q ∙ found_id id e s f found in
        subst (λ i. IsForest ((check_new_parent i e (given parent) >> step) s).1) q
          (check_new_parent_cases Post e (given parent) step s
            (λ clear.
              put_element-IsForest (reattach_element_to_parent parent now e) s f nz
                (λ old was.
                  let same = ap (λ i. find_by_key element_key i s.elements) q ∙ found in
                  ground arith)
                (reattach-IsClear e parent s f nz clear))
            (λ _. f)))
      (λ _. f)

-- The identifier is new: no element has it or names it as its parent, and it is not empty.
pub record IsNew (id : ℕ) (s : Corpora) : Type 0 where
  pub given_id : id ≢ 0
  pub absent : find_by_key element_key id s.elements ≡ none
  pub unnamed : (k x : ℕ) → parent_of (find_by_corpus k s.elements) x ≢ some id

check_attached_parent_cases :
    (Post : Result EngineError ℕ × Corpora → Type 0) (corpus_id : ℕ) (o : Option ℕ)
    (k : CorpusTask ℕ) (s : Corpora)
    → (((p : ℕ)
          → o ≡ some p
          → (parent : CorpusElement) × (find_by_key element_key p s.elements ≡ some parent))
        → Post (k s))
    → ((error : EngineError) → Post (err error, s))
    → Post ((check_attached_parent corpus_id o >> k) s)
unfolding check_attached_parent assert_parent_in_corpus
check_attached_parent_cases Post corpus_id none k s good bad = good (λ p h. cc)
check_attached_parent_cases Post corpus_id (some p) k s good bad =
    elim (Option-cases (find_by_key element_key p s.elements)) [
      | inl n ↦ rw n (bad parent_not_in_same_corpus)
      | inr (parent, found) ↦ elim (Bool-cases (parent.corpus_versionne_id == corpus_id)) [
        | inl same ↦ rw found (rw same (good (λ p' h. (parent, cc))))
        | inr other ↦ rw found (rw other (bad parent_not_in_same_corpus))
      ]
    ]

emit-IsForest : (e : CorpusEvent) (s : Corpora) → IsForest s → IsForest (emit_corpus e s)
emit-IsForest e s f = record { keyed = f.keyed; named = f.named; acyclic = f.acyclic }

new-IsClear :
    (now id : ℕ) (c : AttachCommand) (s : Corpora)
    → IsForest s
    → IsNew id s
    → ((p : ℕ)
        → given c.parent_id ≡ some p
        → (parent : CorpusElement) × (find_by_key element_key p s.elements ≡ some parent))
    → IsClear (create_element id c now) c.parent_id s
unfolding create_element
new-IsClear now id c s f new known p h r =
    let q : p ≡ id =
      Below-unreferenced (parent_of (find_by_corpus c.corpus_versionne_id s.elements)) id
        (new.unnamed c.corpus_versionne_id) r in
    let g : given c.parent_id ≡ some id = let nz = new.given_id in ground arith in
    let (parent, found) = known id g in let n = new.absent in cc

-- Attaching an element under a new identifier keeps the forest, whether the request is accepted or
-- refused.
pub attach_element-IsForest :
    (now id : ℕ) (c : AttachCommand) (s : Corpora)
    → IsForest s
    → IsNew id s
    → IsForest (attach_element now id c s).1
unfolding attach_element get_corpus create_element
attach_element-IsForest now id c s f new =
    let Post : Result EngineError ℕ × Corpora → Type 0 = λ o. IsForest o.1 in
    let element = create_element id c now in
    let saved : CorpusTask ℕ =
      modify (put_element element)
      >> (modify (emit_corpus (element_created element.id c.corpus_versionne_id))
          >> pure element.id) in
    let checked : CorpusTask ℕ =
      check_attached_parent c.corpus_versionne_id (given c.parent_id) >> saved in
    or_raise_cases {A = CorpusVersionne} {B = ℕ} Post
      (find_by_key corpus_key c.corpus_versionne_id s.corpora) corpus_not_found
      (λ _. gets (λ s'. find_by_key noeud_key c.referentiel_hierarchique_id s'.noeuds) >>= λ noeud.
        (or_raise noeud noeud_not_found >>= λ _. checked))
      s
      (λ _ _.
        or_raise_cases {A = Noeud} {B = ℕ} Post
          (find_by_key noeud_key c.referentiel_hierarchique_id s.noeuds) noeud_not_found
          (λ _. checked) s
          (λ _ _.
            check_attached_parent_cases Post c.corpus_versionne_id (given c.parent_id) saved s
              (λ known.
                emit-IsForest (element_created id c.corpus_versionne_id) (put_element element s) (
                  put_element-IsForest element s f (ground arith) (λ old was. cc)
                    (new-IsClear now id c s f new known)))
              (λ _. f))
          (λ _. f))
      (λ _. f)

-- The states that the two requests lead to, from a state without elements.
pub data IsReached : Corpora → Type 0 where
  empty : {s : Corpora} → s.elements ≡ [] → IsReached s
  attached :
      {s : Corpora} (now id : ℕ) (c : AttachCommand)
      → IsNew id s
      → IsReached s
      → IsReached (attach_element now id c s).1
  reattached :
      {s : Corpora} (now id : ℕ) (parent : Option ℕ)
      → IsReached s
      → IsReached (reattach_element now id parent s).1

-- From a state without elements, attaching under new identifiers and reattaching in any order never
-- leads to an element that lies below itself in its corpus.
pub reached-IsForest : {s : Corpora} → IsReached s → IsForest s
reached-IsForest (empty {s = s} e) = record {
  keyed = rw e tt;
  named = rw e refl;
  acyclic = λ k x y h r. let a = parent_index-absent k x s.elements (rw e refl) in cc;
}
reached-IsForest (attached {s = s} now id c new r) =
    attach_element-IsForest now id c s (reached-IsForest r) new
reached-IsForest (reattached {s = s} now id parent r) =
    reattach_element-IsForest now id parent s (reached-IsForest r)
