-- ===== src/Product/Produit.antt =====
-- Commercial products (src/product/domain/entities/produit.entity.ts).
use core_kernel.Prelude.{
  ℕ, refl, Bool, true, false, Option, Result, ok, err, and_then, Text, trim, or_else, if◌then◌else◌,
}
use core_kernel.Product.Errors.{Statut, brouillon, ProductError, invalid_code_produit}
use core_kernel.Product.Feature.{is_code}
use core_kernel.Product.Workflow.{assert_transition_allowed, is_allowed}
use core_kernel.Product.LifeCycle.{Move, target, LifeCycle, Follows, assert-Follows}

pub record Produit : Type 0 where
  pub id : ℕ
  pub catalogue_id : ℕ
  pub code : Text
  pub nom : Text
  pub description : Option Text
  pub est_actif : Bool
  pub statut_workflow : Statut
  pub cree_le : ℕ
  pub modifie_le : ℕ

unfoldable create :
    (Text → Text) → ℕ → ℕ → Text → Text → Option Text → ℕ → Result ProductError Produit
create lower id catalogue_id raw nom description now =
    let code = lower (trim raw) in
    if is_code code
    then ok (record {
      id = id;
      catalogue_id = catalogue_id;
      code = code;
      nom = trim nom;
      description = description;
      est_actif = true;
      statut_workflow = brouillon;
      cree_le = now;
      modifie_le = now;
    })
    else err (invalid_code_produit raw)

unfoldable update_details : Option Text → Option (Option Text) → ℕ → Produit → Produit
update_details nom description now p = record p {
  nom = or_else nom p.nom;
  description = or_else description p.description;
  modifie_le = now;
}

abbrev pub statut_workflow : Produit → Statut
statut_workflow p = p.statut_workflow

-- `validate`, `rejectToDraft`, `publish` and `archive`
unfoldable pub move : Move → ℕ → Produit → Result ProductError Produit
move m now p =
    and_then (assert_transition_allowed p.statut_workflow (target m))
      (λ _. ok (record p { statut_workflow = target m; modifie_le = now }))

unfoldable deactivate : ℕ → Produit → Produit
deactivate now p = record p { est_actif = false; modifie_le = now }

unfoldable reactivate : ℕ → Produit → Produit
reactivate now p = record p { est_actif = true; modifie_le = now }

pub move-Follows :
    (m : Move) (now : ℕ) (p : Produit)
    → Follows statut_workflow p (target m) (is_allowed p.statut_workflow (target m)) (move m now p)
unfolding move
move-Follows m now p = assert-Follows statut_workflow p _ (target m) refl

abbrev pub life_cycle : LifeCycle Produit
life_cycle = record { statut = statut_workflow; move = move; follows = move-Follows }
