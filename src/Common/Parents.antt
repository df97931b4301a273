-- ===== src/Common/Parents.antt =====
-- The walk up a chain of parents, which looks for a cycle and stops at what it has seen: the loop of
-- `wouldCreateCycleInCorpus` (src/referential-engine/domain/entities/corpus-element.entity.ts) and of
-- `isDescendantOf` (src/org/infrastructure/persistence/typeorm/orm-repositories.ts).
use core_kernel.Prelude.{
  ℕ, zero, suc, Bool, true, false, ◌||◌, Option, none, some, List, [], ◌∷◌, ◌==◌, if◌then◌else◌,
}

-- `visited.has(c)`
unfoldable pub has_seen : ℕ → List ℕ → Bool
has_seen c [] = false
has_seen c (x ∷ xs) = x == c || has_seen c xs

-- The walk up from the cursor to the target, with what was already seen.
unfoldable pub walk : ℕ → (ℕ → Option ℕ) → ℕ → Option ℕ → List ℕ → Option Bool
unfolding has_seen
walk zero parent target cursor seen = none
walk (suc fuel) parent target none seen = some false
walk (suc fuel) parent target (some c) seen =
    let next = walk fuel parent target (parent c) (c ∷ seen) in
    if c == target then some true else if has_seen c seen then some false else next
