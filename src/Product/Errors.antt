-- ===== src/Product/Errors.antt =====
-- The errors of the product catalogue, with what their messages carry
-- (src/product/domain/exceptions/product.exceptions.ts and the error classes beside the entities).
use core_kernel.Prelude.{ℕ, Text, JsNumber}

-- `StatutCatalogWorkflow`
pub data Statut : Type 0 where
  brouillon valide publie archive : Statut

-- `TypeOffre`
pub data TypeOffre : Type 0 where
  abonnement usage ponctuel : TypeOffre

-- `PeriodeFacturation`
pub data PeriodeFacturation : Type 0 where
  mensuelle annuelle unique : PeriodeFacturation

pub data ProductError : Type 0 where
  transition : Statut → Statut → ProductError
  invalid_catalogue_scope : ProductError
  invalid_code_produit : Text → ProductError
  invalid_code_feature : Text → ProductError
  invalid_entitlement_limit : JsNumber → ProductError
  incompatible_billing_period : TypeOffre → PeriodeFacturation → ProductError
  invalid_montant : JsNumber → ProductError
  invalid_version : ℕ → ProductError
  invalid_validity_window : ProductError
  overlapping_pricing_grid : ℕ → ℕ → ProductError
  offre_not_found : ProductError
  grille_not_found : ProductError
  uncertified_currency : ℕ → ProductError
