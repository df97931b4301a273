-- ===== src/Prelude/Totals.antt =====
-- The sum of a weight over the rows of a table, and what saving a row does to it.
use Prim.Native.Nat.{ℕ, ◌+◌, ◌≤◌}
use mathlib.Core.Path.{◌≡◌, ap}
use mathlib.Core.Logic.{inl, inr}
use mathlib.Core.Option.{some, none}
use mathlib.Core.List.{List, [], ◌∷◌}
use native.Mathlib.Omega.{arith}
use core_kernel.Prelude.Tests.{◌==◌, Bool-cases}
use core_kernel.Prelude.Lists.{Member}
use core_kernel.Prelude.Tables.{find_by_key, save}

module _ {Row : Type 0} (weight : Row → ℕ) where
  abbrev pub total : List Row → ℕ
  total [] = 0
  total (x ∷ xs) = weight x + total xs

  pub Member-total : (r : Row) (xs : List Row) → Member r xs → weight r ≤ total xs
  Member-total r [] m = absurd m
  Member-total r (x ∷ xs) (inl e) = let k = ap weight e in omega (arith, k)
  Member-total r (x ∷ xs) (inr m) = omega (arith, Member-total r xs m)

  module _ (key : Row → ℕ) where
    pub total-added :
        (r : Row) (xs : List Row)
        → find_by_key key (key r) xs ≡ none
        → total (save key r xs) ≡ total xs + weight r
    total-added r [] h = omega arith
    total-added r (x ∷ xs) h = elim (Bool-cases (key x == key r)) [
      | inl e ↦ cc
      | inr e ↦ let q = total-added r xs (rw e at h) in rw e (omega (arith, q))
    ]

    pub total-changed :
        (r old : Row) (xs : List Row)
        → find_by_key key (key r) xs ≡ some old
        → total (save key r xs) + weight old ≡ total xs + weight r
    total-changed r old [] h = cc
    total-changed r old (x ∷ xs) h = elim (Bool-cases (key x == key r)) [
      | inl e ↦
          let same : x ≡ old = some-injective (rw e at h) in
          rw e (let k = ap weight same in omega (arith, k))
      | inr e ↦ let q = total-changed r old xs (rw e at h) in rw e (omega (arith, q))
    ]
      where
        some-injective : {a b : Row} → some a ≡ some b → a ≡ b
        some-injective h = cc
