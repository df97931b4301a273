-- ===== src/Product/Catalogue.antt =====
-- Catalogues and their scope (src/product/domain/entities/catalogue.entity.ts). An identifier is a
-- number, 0 for the empty text.
use core_kernel.Prelude.{
  ℕ, ◌≡◌, refl, Bool, true, false, ◌&&◌, ◌||◌, not, Option, none, some, arith, Result, ok, err,
  and_then, Text, trim, or_else, same?, ◌==◌, if◌then◌else◌,
}
use core_kernel.Product.Errors.{Statut, brouillon, ProductError, invalid_catalogue_scope}
use core_kernel.Product.Workflow.{assert_transition_allowed, is_allowed}
use core_kernel.Product.LifeCycle.{Move, target, LifeCycle, Follows, assert-Follows}

pub data TypeScope : Type 0 where
  portefeuille_global organisation zone_geographique : TypeScope

pub record CatalogueScope : Type 0 where
  pub kind : TypeScope
  pub cible_id : Option ℕ

abbrev type_eq : TypeScope → TypeScope → Bool
type_eq portefeuille_global portefeuille_global = true
type_eq organisation organisation = true
type_eq zone_geographique zone_geographique = true
type_eq _ _ = false

unfoldable pub scope_global : CatalogueScope
scope_global = record { kind = portefeuille_global; cible_id = none }

unfoldable scope_organisation : ℕ → Result ProductError CatalogueScope
scope_organisation id =
    if id == 0
    then err invalid_catalogue_scope
    else ok (record { kind = organisation; cible_id = some id })

unfoldable scope_zone : ℕ → Result ProductError CatalogueScope
scope_zone id =
    if id == 0
    then err invalid_catalogue_scope
    else ok (record { kind = zone_geographique; cible_id = some id })

-- `!cibleId`
abbrev absent : Option ℕ → Bool
absent none = true
absent (some id) = id == 0

unfoldable pub scope_reconstitute : TypeScope → Option ℕ → Result ProductError CatalogueScope
scope_reconstitute t cible =
    if not (type_eq t portefeuille_global) && absent cible
    then err invalid_catalogue_scope
    else ok (record { kind = t; cible_id = cible })

unfoldable scope_equals : CatalogueScope → CatalogueScope → Bool
scope_equals s t = type_eq s.kind t.kind && same? s.cible_id t.cible_id

pub record Catalogue : Type 0 where
  pub id : ℕ
  pub produit_id : ℕ
  pub nom : Text
  pub scope : CatalogueScope
  pub est_actif : Bool
  pub statut_workflow : Statut
  pub cree_le : ℕ
  pub modifie_le : ℕ

-- `new Date()` is the argument `now`.
unfoldable create : ℕ → ℕ → Text → CatalogueScope → ℕ → Catalogue
create id produit_id nom scope now = record {
  id = id;
  produit_id = produit_id;
  nom = trim nom;
  scope = scope;
  est_actif = true;
  statut_workflow = brouillon;
  cree_le = now;
  modifie_le = now;
}

unfoldable update_details : Option Text → ℕ → Catalogue → Catalogue
update_details nom now c = record c { nom = or_else nom c.nom; modifie_le = now }

abbrev pub statut_workflow : Catalogue → Statut
statut_workflow c = c.statut_workflow

-- `validate`, `rejectToDraft`, `publish` and `archive`
unfoldable pub move : Move → ℕ → Catalogue → Result ProductError Catalogue
move m now c =
    and_then (assert_transition_allowed c.statut_workflow (target m))
      (λ _. ok (record c { statut_workflow = target m; modifie_le = now }))

unfoldable deactivate : ℕ → Catalogue → Catalogue
deactivate now c = record c { est_actif = false; modifie_le = now }

unfoldable reactivate : ℕ → Catalogue → Catalogue
reactivate now c = record c { est_actif = true; modifie_le = now }

pub move-Follows :
    (m : Move) (now : ℕ) (c : Catalogue)
    → Follows statut_workflow c (target m) (is_allowed c.statut_workflow (target m)) (move m now c)
unfolding move
move-Follows m now c = assert-Follows statut_workflow c _ (target m) refl

abbrev pub life_cycle : LifeCycle Catalogue
life_cycle = record { statut = statut_workflow; move = move; follows = move-Follows }

-- The scope is the whole portfolio, or names a target.
abbrev pub IsTargeted : CatalogueScope → Type 0
IsTargeted s = (type_eq s.kind portefeuille_global || not (absent s.cible_id)) ≡ true

-- A scope that was reconstituted without an error is the whole portfolio or names a target.
pub scope_reconstitute-IsTargeted :
    (t : TypeScope) (cible : Option ℕ) (s : CatalogueScope)
    → scope_reconstitute t cible ≡ ok s
    → IsTargeted s
unfolding scope_reconstitute
scope_reconstitute-IsTargeted t cible s e = ground arith
