-- ===== src/Product/Feature.antt =====
-- Features and entitlements (src/product/domain/entities/feature.entity.ts), with the code format
-- that products share.
use core_kernel.Prelude.{
  ℕ, Bool, true, false, ◌&&◌, ◌||◌, Option, none, some, [], ◌∷◌, Result, ok, err, Text, trim,
  or_else, leb, ◌==◌, if◌then◌else◌, JsNumber, natural, length, all, is_lower_or_digit,
}
use core_kernel.Product.Errors.{ProductError, invalid_code_feature, invalid_entitlement_limit}

-- The code units of `[a-z0-9._-]`.
abbrev pub is_code_unit : ℕ → Bool
is_code_unit c = is_lower_or_digit c || c == b'.' || c == b'_' || c == b'-'

-- `/^[a-z0-9][a-z0-9._-]{1,63}$/.test(code)`
unfoldable pub is_code : Text → Bool
is_code [] = false
is_code (c ∷ s) = is_lower_or_digit c && leb 1 (length s) && leb (length s) 63 && all is_code_unit s

pub record Feature : Type 0 where
  pub id : ℕ
  pub code : Text
  pub nom : Text
  pub description : Option Text
  pub est_actif : Bool
  pub cree_le : ℕ
  pub modifie_le : ℕ

unfoldable create : (Text → Text) → ℕ → Text → Text → Option Text → ℕ → Result ProductError Feature
create lower id raw nom description now =
    let code = lower (trim raw) in
    if is_code code
    then ok (record {
      id = id;
      code = code;
      nom = trim nom;
      description = description;
      est_actif = true;
      cree_le = now;
      modifie_le = now;
    })
    else err (invalid_code_feature raw)

-- A description that is not given stays; one that is given may be `null`.
unfoldable update_details : Option Text → Option (Option Text) → ℕ → Feature → Feature
update_details nom description now f = record f {
  nom = or_else nom f.nom;
  description = or_else description f.description;
  modifie_le = now;
}

unfoldable deactivate : ℕ → Feature → Feature
deactivate now f = record f { est_actif = false; modifie_le = now }

unfoldable reactivate : ℕ → Feature → Feature
reactivate now f = record f { est_actif = true; modifie_le = now }

-- `limite` is `null` for no limit.
pub record OffreEntitlement : Type 0 where
  pub id : ℕ
  pub offre_id : ℕ
  pub feature_id : ℕ
  pub limite : Option ℕ
  pub unite : Option Text

unfoldable create_entitlement :
    ℕ → ℕ → ℕ → Option JsNumber → Option Text → Result ProductError OffreEntitlement
create_entitlement id offre_id feature_id none unite =
    ok (record {
      id = id;
      offre_id = offre_id;
      feature_id = feature_id;
      limite = none;
      unite = unite;
    })
create_entitlement id offre_id feature_id (some (natural n)) unite = ok (record {
  id = id;
  offre_id = offre_id;
  feature_id = feature_id;
  limite = some n;
  unite = unite;
})
create_entitlement id offre_id feature_id (some n) unite = err (invalid_entitlement_limit n)
