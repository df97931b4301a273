-- ===== src/Prelude/Sorting.antt =====
-- Sorting by insertion. Equal elements keep their order, as in the sort of JavaScript; the order in
-- which the data base answers equal rows is taken to be that of the table.
use core_kernel.Prelude.Tests.{if◌then◌else◌, Bool-cases}
use core_kernel.Prelude.Lists.{Member, find?}
use mathlib.Core.Path.{◌≡◌, sym, ap, ◌∙◌}
use mathlib.Core.Logic.{inl, inr}
use mathlib.Core.Bool.{Bool, true, false}
use mathlib.Core.Option.{some}
use mathlib.Core.List.{List, [], ◌∷◌}
use native.Mathlib.Omega.{arith}

module _ {A : Type 0} (before : A → A → Bool) where
  abbrev pub insert : A → List A → List A
  insert a [] = a ∷ []
  insert a (x ∷ xs) = let rest = insert a xs in if before a x then a ∷ x ∷ xs else x ∷ rest

  abbrev pub sort : List A → List A
  sort [] = []
  sort (x ∷ xs) = insert x (sort xs)

  Member-insert : (a b : A) (xs : List A) → Member b (a ∷ xs) → Member b (insert a xs)
  Member-insert a b [] m = m
  Member-insert a b (x ∷ xs) m = ground (arith, Member-insert a b xs)

  insert-Member : (a b : A) (xs : List A) → Member b (insert a xs) → Member b (a ∷ xs)
  insert-Member a b [] m = m
  insert-Member a b (x ∷ xs) m = ground (arith, insert-Member a b xs)

  pub Member-sort : (b : A) (xs : List A) → Member b xs → Member b (sort xs)
  Member-sort b [] m = m
  Member-sort b (x ∷ xs) (inl e) = Member-insert x b (sort xs) (inl e)
  Member-sort b (x ∷ xs) (inr m) = Member-insert x b (sort xs) (inr (Member-sort b xs m))

  pub sort-Member : (b : A) (xs : List A) → Member b (sort xs) → Member b xs
  sort-Member b [] m = m
  sort-Member b (x ∷ xs) m = ground (arith, insert-Member x b (sort xs), sort-Member b xs)

  -- A comparison by which one may sort.
  pub record IsOrder : Type 0 where
    pub total : (a b : A) → before a b ≡ false → before b a ≡ true
    pub trans : (a b c : A) → before a b ≡ true → before b c ≡ true → before a c ≡ true

  -- Each element is before the later ones.
  abbrev pub IsSorted : List A → Type 0
  IsSorted [] = Unit
  IsSorted (x ∷ xs) = ((b : A) → Member b xs → before x b ≡ true) × IsSorted xs

  module _ (o : IsOrder) where
    before_refl : (a : A) → before a a ≡ true
    before_refl a = elim (Bool-cases (before a a)) [ inl e ↦ e | inr e ↦ o.total a a e ]

    insert-IsSorted : (a : A) (xs : List A) → IsSorted xs → IsSorted (insert a xs)
    insert-IsSorted a [] h = (λ b m. absurd m, tt)
    insert-IsSorted a (x ∷ xs) h = elim (Bool-cases (before a x)) [
      | inl e ↦ rw e (first e, h)
      | inr e ↦ rw e (after (o.total a x e), insert-IsSorted a xs h.1)
    ]
      where
        first : before a x ≡ true → (b : A) → Member b (x ∷ xs) → before a b ≡ true
        first e b (inl s) = ap (before a) s ∙ e
        first e b (inr m) = o.trans a x b e (h.0 b m)

        after : before x a ≡ true → (b : A) → Member b (insert a xs) → before x b ≡ true
        after e b m = elim (insert-Member a b xs m) [
          | inl s ↦ ap (before x) s ∙ e
          | inr k ↦ h.0 b k
        ]

    pub sort-IsSorted : (xs : List A) → IsSorted (sort xs)
    sort-IsSorted [] = tt
    sort-IsSorted (x ∷ xs) = insert-IsSorted x (sort xs) (sort-IsSorted xs)

    -- What passes the test is not before the first that does.
    pub find?-IsSorted :
        (p : A → Bool) (a : A) (xs : List A)
        → IsSorted xs
        → find? p xs ≡ some a
        → (b : A) → Member b xs
        → p b ≡ true
        → before a b ≡ true
    find?-IsSorted p a [] h found b m q = absurd m
    find?-IsSorted p a (x ∷ xs) h found b m q = elim (Bool-cases (p x)) [
      | inl e ↦
          let same : x ≡ a = some-injective (rw e at found) in
          elim m [
            | inl s ↦ rw (sym same) (ap (before x) s ∙ before_refl x)
            | inr k ↦ rw (sym same) (h.0 b k)
          ]
      | inr e ↦ elim m [
        | inl s ↦ absurd (true-false (sym q ∙ ap p s ∙ e))
        | inr k ↦ find?-IsSorted p a xs h.1 (rw e at found) b k q
      ]
    ]
      where
        some-injective : {c d : A} → some c ≡ some d → c ≡ d
        some-injective h = cc

        true-false : true ≡ false → ⊥
        true-false h = cc
