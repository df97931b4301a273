-- ===== src/Product/Workflow.antt =====
-- The life cycle of catalogues, products, offers and price grids
-- (src/product/domain/entities/catalog-workflow.ts).
use core_kernel.Prelude.{
  ◌≡◌, refl, ◌↔◌, Bool, true, false, List, [], ◌∷◌, Result, ok, throw_if, any, not,
}
use core_kernel.Product.Errors.{
  Statut, brouillon, valide, publie, archive, ProductError, transition,
}

abbrev pub statut_eq : Statut → Statut → Bool
statut_eq brouillon brouillon = true
statut_eq valide valide = true
statut_eq publie publie = true
statut_eq archive archive = true
statut_eq _ _ = false

unfoldable pub allowed_transitions : Statut → List Statut
allowed_transitions brouillon = valide ∷ []
allowed_transitions valide = publie ∷ brouillon ∷ []
allowed_transitions publie = archive ∷ []
allowed_transitions archive = []

-- `ALLOWED_TRANSITIONS[from].includes(to)`
abbrev pub is_allowed : Statut → Statut → Bool
is_allowed from to = any (statut_eq to) (allowed_transitions from)

unfoldable pub assert_transition_allowed : Statut → Statut → Result ProductError (Unit {0})
unfolding allowed_transitions
assert_transition_allowed from to = throw_if (not (is_allowed from to)) (transition from to)

-- The life cycle as its documentation draws it.
infix 40 ◌⟶◌
pub data ◌⟶◌ : Statut → Statut → Type 0 where
  approve : brouillon ⟶ valide
  release : valide ⟶ publie
  send_back : valide ⟶ brouillon
  retire : publie ⟶ archive

-- A transition is accepted exactly if the documented life cycle has it.
pub assert_transition_allowed-⟶ :
    (from to : Statut) → (assert_transition_allowed from to ≡ ok tt) ↔ (from ⟶ to)
unfolding assert_transition_allowed
assert_transition_allowed-⟶ from to = (accepted from to, drawn)
  where
    accepted : (from to : Statut) → assert_transition_allowed from to ≡ ok tt → from ⟶ to
    accepted brouillon valide e = approve
    accepted valide publie e = release
    accepted valide brouillon e = send_back
    accepted publie archive e = retire
    accepted brouillon brouillon e = cc
    accepted _ _ e = cc

    drawn : {from to : Statut} → from ⟶ to → assert_transition_allowed from to ≡ ok tt
    drawn approve = refl
    drawn release = refl
    drawn send_back = refl
    drawn retire = refl
