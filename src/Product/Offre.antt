-- ===== src/Product/Offre.antt =====
-- Offers (src/product/domain/entities/offre.entity.ts). `lower` is JavaScript's `toLowerCase`, whose
-- Unicode tables are no part of the program.
use core_kernel.Prelude.{
  ℕ, ◌≡◌, ◌↔◌, refl, Bool, true, false, Option, arith, Result, ok, and_then, throw_if, Text, trim,
  or_else, not,
}
use core_kernel.Product.Errors.{
  Statut, brouillon, TypeOffre, ponctuel, PeriodeFacturation, unique, ProductError,
  incompatible_billing_period,
}
use core_kernel.Product.Workflow.{assert_transition_allowed, is_allowed}
use core_kernel.Product.LifeCycle.{Move, target, LifeCycle, Follows, assert-Follows}

abbrev pub est_ponctuelle : TypeOffre → Bool
est_ponctuelle ponctuel = true
est_ponctuelle _ = false

abbrev pub periode_est_unique : PeriodeFacturation → Bool
periode_est_unique unique = true
periode_est_unique _ = false

-- `a !== b` on Booleans
abbrev differ : Bool → Bool → Bool
differ true b = not b
differ false b = b

unfoldable assert_billing_period_compatible :
    TypeOffre → PeriodeFacturation → Result ProductError (Unit {0})
assert_billing_period_compatible t p =
    throw_if (differ (est_ponctuelle t) (periode_est_unique p)) (incompatible_billing_period t p)

pub record Offre : Type 0 where
  pub id : ℕ
  pub produit_id : ℕ
  pub code : Text
  pub nom : Text
  pub kind : TypeOffre
  pub periode_facturation : PeriodeFacturation
  pub est_actif : Bool
  pub statut_workflow : Statut
  pub cree_le : ℕ
  pub modifie_le : ℕ

unfoldable pub create :
    (Text → Text)
    → ℕ
    → ℕ
    → Text
    → Text
    → TypeOffre
    → PeriodeFacturation
    → ℕ
    → Result ProductError Offre
unfolding assert_billing_period_compatible
create lower id produit_id code nom t p now = and_then (assert_billing_period_compatible t p) λ _.
    ok (record {
      id = id;
      produit_id = produit_id;
      code = lower (trim code);
      nom = trim nom;
      kind = t;
      periode_facturation = p;
      est_actif = true;
      statut_workflow = brouillon;
      cree_le = now;
      modifie_le = now;
    })

unfoldable update_details : Option Text → ℕ → Offre → Offre
update_details nom now o = record o { nom = or_else nom o.nom; modifie_le = now }

abbrev pub statut_workflow : Offre → Statut
statut_workflow o = o.statut_workflow

-- `validate`, `rejectToDraft`, `publish` and `archive`
unfoldable pub move : Move → ℕ → Offre → Result ProductError Offre
move m now o =
    and_then (assert_transition_allowed o.statut_workflow (target m))
      (λ _. ok (record o { statut_workflow = target m; modifie_le = now }))

unfoldable deactivate : ℕ → Offre → Offre
deactivate now o = record o { est_actif = false; modifie_le = now }

unfoldable reactivate : ℕ → Offre → Offre
reactivate now o = record o { est_actif = true; modifie_le = now }

pub move-Follows :
    (m : Move) (now : ℕ) (o : Offre)
    → Follows statut_workflow o (target m) (is_allowed o.statut_workflow (target m)) (move m now o)
unfolding move
move-Follows m now o = assert-Follows statut_workflow o _ (target m) refl

abbrev pub life_cycle : LifeCycle Offre
life_cycle = record { statut = statut_workflow; move = move; follows = move-Follows }

-- A one-time offer is billed once, and no other offer is.
abbrev pub IsBillable : Offre → Type 0
IsBillable o = (o.kind ≡ ponctuel) ↔ (o.periode_facturation ≡ unique)

-- Every offer that was created bills at a period that fits its type.
pub create-IsBillable :
    (lower : Text → Text) (id produit_id : ℕ) (code nom : Text) (t : TypeOffre)
    (p : PeriodeFacturation) (now : ℕ) (o : Offre)
    → create lower id produit_id code nom t p now ≡ ok o
    → IsBillable o
unfolding create
create-IsBillable lower id produit_id code nom t p now o h = ground arith
