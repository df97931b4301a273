-- ===== src/Prelude/Tables.antt =====
-- The rows of a database table, and the two ways in which the repositories reach one row: by its
-- primary key, and by `save`, which replaces the row of that key or adds it.
use Prim.Native.Nat.{ℕ}
use mathlib.Core.Path.{◌≡◌, refl}
use mathlib.Core.Logic.{◌⊎◌, inl, inr}
use mathlib.Core.Option.{Option, none, some}
use mathlib.Core.List.{List, [], ◌∷◌}
use native.Mathlib.Omega.{arith}
use core_kernel.Prelude.Tests.{if◌then◌else◌, ◌==◌, Bool-cases}
use core_kernel.Prelude.Lists.{Member}

module _ {ℓ} {Row : Type ℓ} (key : Row → ℕ) where
  -- `findOne({ where: { id } })`
  abbrev pub find_by_key : ℕ → List Row → Option Row
  find_by_key k [] = none
  find_by_key k (x ∷ xs) = let rest = find_by_key k xs in if key x == k then some x else rest

  -- `save(row)`
  abbrev pub save : Row → List Row → List Row
  save r [] = r ∷ []
  save r (x ∷ xs) = let rest = save r xs in if key x == key r then r ∷ xs else x ∷ rest

  -- No two rows have one key.
  abbrev pub IsKeyed : List Row → Type ℓ
  IsKeyed [] = Unit
  IsKeyed (x ∷ xs) = (find_by_key (key x) xs ≡ none) × IsKeyed xs

  pub find_by_key-save :
      (k : ℕ) (r : Row) (xs : List Row)
      → find_by_key k (save r xs) ≡ (if key r == k then some r else find_by_key k xs)
  find_by_key-save k r [] = refl
  find_by_key-save k r (x ∷ xs) = ground (arith, find_by_key-save k r xs)

  pub save-IsKeyed : (r : Row) (xs : List Row) → IsKeyed xs → IsKeyed (save r xs)
  save-IsKeyed r [] h = (refl, tt)
  save-IsKeyed r (x ∷ xs) h = ground (arith, save-IsKeyed r xs h.1, find_by_key-save (key x) r xs)

module _ {Row : Type 0} (key : Row → ℕ) where
  -- The row that is found has the key, and is in the table.
  pub find_by_key-Member :
      (k : ℕ) (r : Row) (xs : List Row) → find_by_key key k xs ≡ some r → Member r xs × (key r ≡ k)
  find_by_key-Member k r [] h = cc
  find_by_key-Member k r (x ∷ xs) h = elim (Bool-cases (key x == k)) [
    | inl e ↦ ground arith
    | inr e ↦ let (m, q) = find_by_key-Member k r xs (rw e at h) in (inr m, q)
  ]

  -- In a table without double keys, each row is found by its key.
  pub Member-find_by_key :
      (r : Row) (xs : List Row) → IsKeyed key xs → Member r xs → find_by_key key (key r) xs ≡ some r
  Member-find_by_key r [] h m = absurd m
  Member-find_by_key r (x ∷ xs) h m = ground (arith, Member-find_by_key r xs h.1)

  -- A row of a table that was saved to is the saved row or an old one.
  pub Member-save : (a r : Row) (xs : List Row) → Member a (save key r xs) → (a ≡ r) ⊎ Member a xs
  Member-save a r [] m = m
  Member-save a r (x ∷ xs) m = ground (arith, Member-save a r xs)
