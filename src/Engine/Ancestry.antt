-- ===== src/Engine/Ancestry.antt =====
-- The walk up the parents of a corpus's elements always answers, and answers rightly
-- (`wouldCreateCycleInCorpus`).
use core_kernel.Prelude.{
  ℕ, ◌+◌, ◌≡◌, ◌↔◌, subst, refl, inl, inr, true, Option, some, List, [], ◌∷◌, arith, length,
  is_some, Option-cases,
}
use core_kernel.Common.Parents.{has_seen, walk}
use core_kernel.Common.Ancestry.{Below, Covers, enough_fuel, walk-iff_Below}
use core_kernel.Engine.Versions.{
  CorpusElement, parent_index, parent_of, would_create_cycle_in_corpus,
}

abbrev ids : List CorpusElement → List ℕ
ids [] = []
ids (e ∷ es) = e.id ∷ ids es

length-ids : (es : List CorpusElement) → length (ids es) ≡ length es
length-ids [] = refl
length-ids (e ∷ es) = ground (arith, length-ids es)

index-seen :
    (c : ℕ) (p : Option ℕ) (es : List CorpusElement)
    → parent_index c es ≡ some p
    → has_seen c (ids es) ≡ true
unfolding parent_index has_seen
index-seen c p [] h = cc
index-seen c p (e ∷ es) h = elim (Option-cases (parent_index c es)) [
  | inl n ↦ ground arith
  | inr (p', found) ↦ let k = index-seen c p' es found in ground arith
]

ids-Covers : (es : List CorpusElement) → Covers (ids es) (parent_of es)
ids-Covers es c p h = elim (Option-cases (parent_index c es)) [
  | inl n ↦ ground arith
  | inr (p', found) ↦ index-seen c p' es found
]

-- The test for a cycle answers for all elements, whatever loops their parents already form.
pub would_create_cycle_answers :
    (es : List CorpusElement) (id candidate : ℕ)
    → is_some (would_create_cycle_in_corpus es id candidate) ≡ true
unfolding would_create_cycle_in_corpus
would_create_cycle_answers es id candidate =
    subst (λ n. is_some (walk (n + 2) (parent_of es) id (some candidate) []) ≡ true) (length-ids es)
      (enough_fuel (ids es) (parent_of es) id candidate (ids-Covers es))

-- The test for a cycle answers yes exactly if going up from the candidate leads to the element.
pub would_create_cycle-Below :
    (es : List CorpusElement) (id candidate : ℕ)
    → (would_create_cycle_in_corpus es id candidate ≡ some true) ↔ Below (parent_of es) id candidate
unfolding would_create_cycle_in_corpus
would_create_cycle-Below es id candidate =
    subst
      (λ n.
        (walk (n + 2) (parent_of es) id (some candidate) [] ≡ some true)
        ↔ Below (parent_of es) id candidate)
      (length-ids es) (walk-iff_Below (ids es) (parent_of es) id candidate (ids-Covers es))
