-- ===== src/Prelude/Lists.antt =====
-- Lists searched by Boolean tests, with a membership that computes.
use Prim.Native.Nat.{ℕ, suc}
use mathlib.Core.Path.{◌≡◌}
use mathlib.Core.Logic.{◌⊎◌, inl, inr}
use mathlib.Core.Bool.{Bool, true, false}
use mathlib.Core.Option.{Option, none, some}
use mathlib.Core.List.{List, [], ◌∷◌}
use native.Mathlib.Omega.{arith}
use core_kernel.Prelude.Tests.{if◌then◌else◌, ◌==◌, Bool-cases}

module _ {ℓ} {A : Type ℓ} where
  abbrev pub length : List A → ℕ
  length [] = 0
  length (_ ∷ xs) = suc (length xs)

  abbrev pub filter : (A → Bool) → List A → List A
  filter p [] = []
  filter p (x ∷ xs) = let rest = filter p xs in if p x then x ∷ rest else rest

  abbrev pub find? : (A → Bool) → List A → Option A
  find? p [] = none
  find? p (x ∷ xs) = let rest = find? p xs in if p x then some x else rest

  abbrev pub any : (A → Bool) → List A → Bool
  any p [] = false
  any p (x ∷ xs) = let rest = any p xs in if p x then true else rest

  abbrev pub all : (A → Bool) → List A → Bool
  all p [] = true
  all p (x ∷ xs) = let rest = all p xs in if p x then rest else false

  abbrev pub All {κ} : (A → Type κ) → List A → Type κ
  All P [] = Unit
  All P (x ∷ xs) = P x × All P xs

module _ {A : Type 0} where
  -- Membership, by recursion.
  abbrev pub Member : A → List A → Type 0
  Member a [] = ⊥
  Member a (x ∷ xs) = (a ≡ x) ⊎ Member a xs

  -- What a search finds is in the list and passes the test; where it finds nothing, no entry does.
  pub find?-Member :
      (p : A → Bool) (a : A) (xs : List A) → find? p xs ≡ some a → Member a xs × (p a ≡ true)
  find?-Member p a [] h = cc
  find?-Member p a (x ∷ xs) h = elim (Bool-cases (p x)) [
    | inl e ↦ ground arith
    | inr e ↦ let (m, q) = find?-Member p a xs (rw e at h) in (inr m, q)
  ]

  pub find?-none :
      (p : A → Bool) (a : A) (xs : List A) → find? p xs ≡ none → Member a xs → p a ≡ false
  find?-none p a [] h m = absurd m
  find?-none p a (x ∷ xs) h m = ground (arith, find?-none p a xs)

  pub Member-filter :
      (p : A → Bool) (a : A) (xs : List A) → Member a xs → p a ≡ true → Member a (filter p xs)
  Member-filter p a [] m h = m
  Member-filter p a (x ∷ xs) m h = ground (arith, Member-filter p a xs)

  pub filter-Member :
      (p : A → Bool) (a : A) (xs : List A) → Member a (filter p xs) → Member a xs × (p a ≡ true)
  filter-Member p a [] m = absurd m
  filter-Member p a (x ∷ xs) m = ground (arith, filter-Member p a xs)

abbrev add_some {κ} : {B : Type κ} → Option B → List B → List B
add_some none bs = bs
add_some (some b) bs = b ∷ bs

module _ {ℓ κ} {A : Type ℓ} {B : Type κ} where
  abbrev pub filter_map : (A → Option B) → List A → List B
  filter_map f [] = []
  filter_map f (x ∷ xs) = add_some (f x) (filter_map f xs)

-- `[...new Set(xs)]`: each number once, in the order of its first occurrence.
abbrev pub distinct_from : List ℕ → List ℕ → List ℕ
distinct_from seen [] = []
distinct_from seen (x ∷ xs) =
    let rest = distinct_from (x ∷ seen) xs in
    let skipped = distinct_from seen xs in if any (λ y. x == y) seen then skipped else x ∷ rest

abbrev pub distinct : List ℕ → List ℕ
distinct = distinct_from []
