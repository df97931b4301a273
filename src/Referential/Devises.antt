-- ===== src/Referential/Devises.antt =====
-- Currencies, languages and regional blocks
-- (src/referential/domain/entities/devise-et-langue.entity.ts and bloc-regional.entity.ts) and their
-- use cases (src/referential/application/use-cases). `upper` and `lower` stand for `toUpperCase` and
-- `toLowerCase`.
use core_kernel.Prelude.{
  ℕ, Bool, true, false, ◌&&◌, Option, none, some, [], ◌∷◌, Text, trim, leb, or_else, if◌then◌else◌,
  JsNumber, natural, negative, fractional, Result, ok, err, and_then,
}
use core_kernel.Referential.Nomenclature.{
  Statut, brouillon, NomenclatureError, invalid_code, invalid_decimales, Kind, Task, add_row,
}

abbrev is_lower : ℕ → Bool
is_lower c = leb b'a' c && leb c b'z'

abbrev is_upper : ℕ → Bool
is_upper c = leb b'A' c && leb c b'Z'

-- `ISO_4217_REGEX`
unfoldable pub is_iso_4217 : Text → Bool
is_iso_4217 (a ∷ b ∷ c ∷ []) = is_upper a && (is_upper b && is_upper c)
is_iso_4217 _ = false

-- `ISO_639_REGEX`
unfoldable pub is_iso_639 : Text → Bool
is_iso_639 (a ∷ b ∷ []) = is_lower a && is_lower b
is_iso_639 (a ∷ b ∷ c ∷ []) = is_lower a && (is_lower b && is_lower c)
is_iso_639 _ = false

pub record Devise : Type 0 where
  pub id : ℕ
  pub code_iso4217 : Text
  pub nom : Text
  pub zone_monetaire : Option Text
  pub decimales : ℕ
  pub est_actif : Bool
  pub statut_workflow : Statut
  pub cree_le : ℕ
  pub modifie_le : ℕ

-- A whole number from 0 to 4.
abbrev pub check_decimales : JsNumber → Result NomenclatureError ℕ
check_decimales (natural n) = if leb n 4 then ok n else err invalid_decimales
check_decimales (negative n) = err invalid_decimales
check_decimales fractional = err invalid_decimales

pub record CreateDevise : Type 0 where
  pub code_iso4217 : Text
  pub nom : Text
  pub zone_monetaire : Option Text
  pub decimales : JsNumber

-- `Devise.create`
unfoldable pub create_devise :
    (Text → Text) → ℕ → ℕ → CreateDevise → Result NomenclatureError Devise
unfolding is_iso_4217
create_devise upper now id c =
    let code_iso4217 = upper (trim c.code_iso4217) in
    if is_iso_4217 code_iso4217
    then and_then (check_decimales c.decimales) (λ decimales. ok (record {
      id = id;
      code_iso4217 = code_iso4217;
      nom = trim c.nom;
      zone_monetaire = c.zone_monetaire;
      decimales = decimales;
      est_actif = true;
      statut_workflow = brouillon;
      cree_le = now;
      modifie_le = now;
    }))
    else err (invalid_code c.code_iso4217)

pub record DeviseUpdates : Type 0 where
  pub nom : Option Text
  pub zone_monetaire : Option (Option Text)
  pub decimales : Option JsNumber

-- An absent number of decimals is not checked.
abbrev check_updated : Option JsNumber → ℕ → Result NomenclatureError ℕ
check_updated none decimales = ok decimales
check_updated (some n) decimales = check_decimales n

-- `updateDetails` of a currency
unfoldable pub update_devise : DeviseUpdates → ℕ → Devise → Result NomenclatureError Devise
update_devise u now d = and_then (check_updated u.decimales d.decimales) (λ decimales.
    ok (record d {
      nom = or_else u.nom d.nom;
      zone_monetaire = or_else u.zone_monetaire d.zone_monetaire;
      decimales = decimales;
      modifie_le = now;
    }))

unfoldable pub deactivate_devise : ℕ → Devise → Devise
deactivate_devise now d = record d { est_actif = false; modifie_le = now }

abbrev pub devise_kind : Kind Devise
devise_kind = record {
  id = λ d. d.id;
  code = λ d. d.code_iso4217;
  statut = λ d. d.statut_workflow;
  with_statut = λ now to d. record d { statut_workflow = to; modifie_le = now };
}

-- `CreateDeviseUseCase.execute`
unfoldable pub add_devise : (Text → Text) → ℕ → ℕ → CreateDevise → Task devise_kind ℕ
add_devise upper now id c =
    let code_normalise = upper (trim c.code_iso4217) in
    add_row devise_kind code_normalise
      (create_devise upper now id (record c { code_iso4217 = code_normalise }))

pub record Langue : Type 0 where
  pub id : ℕ
  pub code_iso639 : Text
  pub nom : Text
  pub est_actif : Bool
  pub statut_workflow : Statut
  pub cree_le : ℕ
  pub modifie_le : ℕ

-- `Langue.create`
unfoldable pub create_langue : (Text → Text) → ℕ → ℕ → Text → Text → Result NomenclatureError Langue
unfolding is_iso_639
create_langue lower now id code nom =
    let code_iso639 = lower (trim code) in
    if is_iso_639 code_iso639
    then ok (record {
      id = id;
      code_iso639 = code_iso639;
      nom = trim nom;
      est_actif = true;
      statut_workflow = brouillon;
      cree_le = now;
      modifie_le = now;
    })
    else err (invalid_code code)

-- `updateDetails` of a language
unfoldable pub update_langue : Option Text → ℕ → Langue → Langue
update_langue nom now l = record l { nom = or_else nom l.nom; modifie_le = now }

unfoldable pub deactivate_langue : ℕ → Langue → Langue
deactivate_langue now l = record l { est_actif = false; modifie_le = now }

abbrev pub langue_kind : Kind Langue
langue_kind = record {
  id = λ l. l.id;
  code = λ l. l.code_iso639;
  statut = λ l. l.statut_workflow;
  with_statut = λ now to l. record l { statut_workflow = to; modifie_le = now };
}

-- `CreateLangueUseCase.execute`
unfoldable pub add_langue : (Text → Text) → ℕ → ℕ → Text → Text → Task langue_kind ℕ
add_langue lower now id code nom =
    let code_normalise = lower (trim code) in
    add_row langue_kind code_normalise (create_langue lower now id code_normalise nom)

-- `TypeBlocRegional`
pub data TypeBlocRegional : Type 0 where
  economique juridique monetaire examinateur : TypeBlocRegional

pub record BlocRegional : Type 0 where
  pub id : ℕ
  pub code : Text
  pub nom : Text
  pub type_bloc : TypeBlocRegional
  pub est_actif : Bool
  pub statut_workflow : Statut
  pub cree_le : ℕ
  pub modifie_le : ℕ

-- `BlocRegional.create`
unfoldable pub create_bloc : (Text → Text) → ℕ → ℕ → Text → Text → TypeBlocRegional → BlocRegional
create_bloc upper now id code nom type_bloc = record {
  id = id;
  code = upper (trim code);
  nom = trim nom;
  type_bloc = type_bloc;
  est_actif = true;
  statut_workflow = brouillon;
  cree_le = now;
  modifie_le = now;
}

-- `updateDetails` of a block
unfoldable pub update_bloc : Option Text → Option TypeBlocRegional → ℕ → BlocRegional → BlocRegional
update_bloc nom type_bloc now b = record b {
  nom = or_else nom b.nom;
  type_bloc = or_else type_bloc b.type_bloc;
  modifie_le = now;
}

unfoldable pub deactivate_bloc : ℕ → BlocRegional → BlocRegional
deactivate_bloc now b = record b { est_actif = false; modifie_le = now }

abbrev pub bloc_kind : Kind BlocRegional
bloc_kind = record {
  id = λ b. b.id;
  code = λ b. b.code;
  statut = λ b. b.statut_workflow;
  with_statut = λ now to b. record b { statut_workflow = to; modifie_le = now };
}

-- `CreateBlocRegionalUseCase.execute`
unfoldable pub add_bloc : (Text → Text) → ℕ → ℕ → Text → Text → TypeBlocRegional → Task bloc_kind ℕ
add_bloc upper now id code nom type_bloc =
    let code_normalise = upper (trim code) in
    add_row bloc_kind code_normalise (ok (create_bloc upper now id code_normalise nom type_bloc))
