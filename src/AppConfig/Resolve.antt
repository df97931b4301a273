-- ===== src/AppConfig/Resolve.antt =====
-- The resolution of the configuration
-- (src/app-config/application/use-cases/resolve-app-config.use-case.ts), and the update of its
-- global level (configuration-globale.use-cases.ts beside it). `Ports` is what the other components
-- answer.
use core_kernel.Prelude.{
  given, ℕ, Bool, not, Option, none, some, List, [], ◌∷◌, Result, ok, and_then, throw_if, Text,
  or_else, ◌==◌, ◌&&◌, any, is_some,
}
use core_kernel.AppConfig.Heritage.{
  Niveau, ConfigurationGlobale, resolve_tous_les_champs, create_configuration, niveau_vide,
  defaut_fuseau, defaut_date, defaut_nombre,
}

pub data ConfigError : Type 0 where
  not_in_user_scope : ConfigError
  not_found_or_inactive : ConfigError
  unite_not_in_organisation : ConfigError

-- `ReferentielNiveau`
pub record Referentiel : Type 0 where
  pub pays_id : Option ℕ
  pub devise_id : Option ℕ
  pub langue_id : Option ℕ
  pub fuseau_horaire : Option Text

pub record PaysDefaults : Type 0 where
  pub code_iso : Text
  pub devise_id_principale : Option ℕ
  pub langue_id_principale : Option ℕ
  pub fuseau_horaire : Option Text
  pub adresse_gabarit : Option Text

pub record CodesEnrichis : Type 0 where
  pub pays_code : Option Text
  pub devise_code : Option Text
  pub langue_code : Option Text

pub record Ports : Type 0 where
  pub exists_and_active : ℕ → Bool
  pub get_referentiel : ℕ → Option Referentiel
  pub get_organisation_referentiel : ℕ → Option Referentiel
  pub get_unite_referentiel : ℕ → ℕ → Option Referentiel
  pub get_pays_defaults : ℕ → Option PaysDefaults
  pub enrich_codes : Option ℕ → Option ℕ → Option ℕ → CodesEnrichis
  pub resolve_locale : Option Text → Option Text → Option Text

-- `ResolveAppConfigCommand`
pub record Command : Type 0 where
  pub gsg_id : ℕ
  pub requesting_user_gsg_org_ids : List ℕ
  pub gsg_org_id : ℕ
  pub unite_operationnelle_id : Option ℕ

pub record AppConfigResponse : Type 0 where
  pub pays_id : Option ℕ
  pub pays_code : Option Text
  pub devise_id : Option ℕ
  pub devise_code : Option Text
  pub langue_id : Option ℕ
  pub langue_code : Option Text
  pub locale : Option Text
  pub fuseau_horaire : Text
  pub format_date : Text
  pub format_nombre : Text
  pub adresse_gabarit : Option Text
  pub fournisseurs_paiement : List Text

-- `utilisateur ?? {}` as a level
abbrev pub niveau_referentiel : Option Referentiel → Niveau
niveau_referentiel none = niveau_vide
niveau_referentiel (some r) = record niveau_vide {
  devise_id = r.devise_id;
  langue_id = r.langue_id;
  fuseau_horaire = r.fuseau_horaire;
}

abbrev pub niveau_pays : Option PaysDefaults → Niveau
niveau_pays none = niveau_vide
niveau_pays (some d) = record niveau_vide {
  devise_id = d.devise_id_principale;
  langue_id = d.langue_id_principale;
  fuseau_horaire = d.fuseau_horaire;
  adresse_gabarit = d.adresse_gabarit;
}

abbrev pub niveau_global : ConfigurationGlobale → Niveau
niveau_global c = record {
  devise_id = c.devise_id;
  langue_id = c.langue_id;
  fuseau_horaire = some c.fuseau_horaire;
  format_date = some c.format_date;
  format_nombre = some c.format_nombre;
  adresse_gabarit = none;
}

-- `getOrDefaultConfigurationGlobale`, and `GetConfigurationGlobaleUseCase.execute`
abbrev pub configuration_or_default : Option ConfigurationGlobale → ℕ → ConfigurationGlobale
configuration_or_default (some c) now = c
configuration_or_default none now = create_configuration niveau_vide now

-- `UpdateConfigurationGlobaleUseCase.execute`: what is saved. An absent field keeps its value; the two
-- identifiers may also be cleared.
pub record ConfigurationUpdate : Type 0 where
  pub devise_id : Option (Option ℕ)
  pub langue_id : Option (Option ℕ)
  pub fuseau_horaire : Option Text
  pub format_date : Option Text
  pub format_nombre : Option Text

unfoldable update_configuration :
    Option ConfigurationGlobale → ConfigurationUpdate → ℕ → ConfigurationGlobale
update_configuration existante u now =
    let c = configuration_or_default existante now in
    record {
      devise_id = or_else u.devise_id c.devise_id;
      langue_id = or_else u.langue_id c.langue_id;
      fuseau_horaire = or_else u.fuseau_horaire c.fuseau_horaire;
      format_date = or_else u.format_date c.format_date;
      format_nombre = or_else u.format_nombre c.format_nombre;
      modifie_le = now;
    }

abbrev pub pays_of : Option Referentiel → Option ℕ
pays_of none = none
pays_of (some r) = r.pays_id

-- JavaScript's `a ?? b` where both may be `null`.
abbrev pub first_some {ℓ} : {A : Type ℓ} → Option A → Option A → Option A
first_some (some a) _ = some a
first_some none b = b

module _ (ports : Ports) where
  -- The level of the operational unit, asked for only if one is given.
  abbrev pub unite_referentiel : Option ℕ → ℕ → Option Referentiel
  unite_referentiel none gsg_org_id = none
  unite_referentiel (some unite_id) gsg_org_id = ports.get_unite_referentiel unite_id gsg_org_id

  abbrev pub pays_defaults : Option ℕ → Option PaysDefaults
  pays_defaults none = none
  pays_defaults (some pays_id) = ports.get_pays_defaults pays_id

  -- The levels, the most specific first.
  abbrev pub niveaux :
      Option Referentiel
      → Option Referentiel
      → Option Referentiel
      → ConfigurationGlobale
      → List Niveau
  niveaux utilisateur agence organisation globale =
      let pays_id =
        first_some (pays_of utilisateur) (first_some (pays_of agence) (pays_of organisation)) in
      niveau_referentiel utilisateur
      ∷ niveau_referentiel agence
      ∷ niveau_referentiel organisation
      ∷ niveau_pays (pays_defaults (given pays_id))
      ∷ niveau_global globale
      ∷ []

  -- The answer for the levels found.
  unfoldable pub respond :
      Option Referentiel
      → Option Referentiel
      → Option Referentiel
      → ConfigurationGlobale
      → AppConfigResponse
  respond utilisateur agence organisation globale =
      let pays_id =
        first_some (pays_of utilisateur) (first_some (pays_of agence) (pays_of organisation)) in
      let champs = resolve_tous_les_champs (niveaux utilisateur agence organisation globale) in
      let enriched = ports.enrich_codes pays_id champs.devise_id champs.langue_id in
      record {
        pays_id = pays_id;
        pays_code = enriched.pays_code;
        devise_id = champs.devise_id;
        devise_code = enriched.devise_code;
        langue_id = champs.langue_id;
        langue_code = enriched.langue_code;
        locale = ports.resolve_locale enriched.langue_code enriched.pays_code;
        fuseau_horaire = or_else champs.fuseau_horaire defaut_fuseau;
        format_date = or_else champs.format_date defaut_date;
        format_nombre = or_else champs.format_nombre defaut_nombre;
        adresse_gabarit = champs.adresse_gabarit;
        fournisseurs_paiement = [];
      }

  -- `ResolveAppConfigUseCase.execute`, with the stored global configuration
  unfoldable pub resolve_app_config :
      Option ConfigurationGlobale → ℕ → Command → Result ConfigError AppConfigResponse
  unfolding respond
  resolve_app_config globale now c =
      let unite_id = given c.unite_operationnelle_id in
      let agence = unite_referentiel unite_id c.gsg_org_id in
      and_then
        (throw_if (not (any (λ i. i == c.gsg_org_id) c.requesting_user_gsg_org_ids))
          not_in_user_scope)
        (λ _.
          and_then (throw_if (not (ports.exists_and_active c.gsg_org_id)) not_found_or_inactive)
            (λ _.
              and_then
                (throw_if (is_some unite_id && not (is_some agence)) unite_not_in_organisation)
                (λ _. ok (
                  respond (ports.get_referentiel c.gsg_id) agence
                    (ports.get_organisation_referentiel c.gsg_org_id)
                    (configuration_or_default globale now)))))
