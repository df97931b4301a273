-- ===== src/AppConfig/Heritage.antt =====
-- The inheritance of regional parameters
-- (src/app-config/domain/entities/inheritance-resolver.ts) and the global level
-- (configuration-globale.entity.ts beside it).
use core_kernel.Prelude.{ℕ, Option, none, some, List, [], ◌∷◌, Text, codes, or_else}

-- `NiveauReferentielPartiel`: a field that a level does not define is absent.
pub record Niveau : Type 0 where
  pub devise_id : Option ℕ
  pub langue_id : Option ℕ
  pub fuseau_horaire : Option Text
  pub format_date : Option Text
  pub format_nombre : Option Text
  pub adresse_gabarit : Option Text

abbrev pub niveau_vide : Niveau
niveau_vide = record {
  devise_id = none;
  langue_id = none;
  fuseau_horaire = none;
  format_date = none;
  format_nombre = none;
  adresse_gabarit = none;
}

-- `resolveChamp`, the field being given by its projection
unfoldable pub resolve_champ {ℓ} : {A : Type ℓ} → List Niveau → (Niveau → Option A) → Option A
resolve_champ [] champ = none
resolve_champ (n ∷ ns) champ = elim (champ n) [
  | some valeur ↦ some valeur
  | none ↦ resolve_champ ns champ
]

-- `resolveTousLesChamps`; `ChampsResolus` has the fields of a level.
unfoldable pub resolve_tous_les_champs : List Niveau → Niveau
resolve_tous_les_champs ns = record {
  devise_id = resolve_champ ns (λ n. n.devise_id);
  langue_id = resolve_champ ns (λ n. n.langue_id);
  fuseau_horaire = resolve_champ ns (λ n. n.fuseau_horaire);
  format_date = resolve_champ ns (λ n. n.format_date);
  format_nombre = resolve_champ ns (λ n. n.format_nombre);
  adresse_gabarit = resolve_champ ns (λ n. n.adresse_gabarit);
}

-- `DEFAUTS_ABSOLUS`
abbrev pub defaut_fuseau : Text
defaut_fuseau = codes "UTC"

abbrev pub defaut_date : Text
defaut_date = codes "DD/MM/YYYY"

abbrev pub defaut_nombre : Text
defaut_nombre = codes "#,##0.00"

pub record ConfigurationGlobale : Type 0 where
  pub devise_id : Option ℕ
  pub langue_id : Option ℕ
  pub fuseau_horaire : Text
  pub format_date : Text
  pub format_nombre : Text
  pub modifie_le : ℕ

-- `ConfigurationGlobale.create`, its parameters being the fields that are given
unfoldable pub create_configuration : Niveau → ℕ → ConfigurationGlobale
create_configuration p now = record {
  devise_id = p.devise_id;
  langue_id = p.langue_id;
  fuseau_horaire = or_else p.fuseau_horaire defaut_fuseau;
  format_date = or_else p.format_date defaut_date;
  format_nombre = or_else p.format_nombre defaut_nombre;
  modifie_le = now;
}
