-- ===== src/AppConfig/Tests.antt =====
-- A resolution on concrete levels.
use core_kernel.Prelude.{refl, true, none, some, [], ◌∷◌, codes}
use core_kernel.AppConfig.Heritage.{
  Niveau, ConfigurationGlobale, niveau_vide, resolve_champ, resolve_tous_les_champs,
}
use core_kernel.AppConfig.Resolve.{
  Ports, Command, Referentiel, AppConfigResponse, resolve_app_config, respond, niveaux,
}
use core_kernel.AppConfig.Priority.{IsFirst, resolved_from_levels}

abbrev dakar : Niveau
dakar = record niveau_vide { fuseau_horaire = some (codes "Africa/Dakar") }

abbrev agency : Referentiel
agency = record {
  pays_id = none;
  devise_id = some 4;
  langue_id = none;
  fuseau_horaire = some (codes "Africa/Dakar");
}

abbrev ports : Ports
ports = record {
  exists_and_active = λ id. true;
  get_referentiel = λ id. none;
  get_organisation_referentiel = λ id. none;
  get_unite_referentiel = λ unite org. some agency;
  get_pays_defaults = λ id. none;
  enrich_codes =
      λ pays devise langue. record { pays_code = none; devise_code = none; langue_code = none };
  resolve_locale = λ langue pays. none;
}

abbrev command : Command
command = record {
  gsg_id = 1;
  requesting_user_gsg_org_ids = 7 ∷ [];
  gsg_org_id = 7;
  unite_operationnelle_id = some 2;
}

abbrev answer : AppConfigResponse
answer = record {
  pays_id = none;
  pays_code = none;
  devise_id = some 4;
  devise_code = none;
  langue_id = none;
  langue_code = none;
  locale = none;
  fuseau_horaire = codes "Africa/Dakar";
  format_date = codes "DD/MM/YYYY";
  format_nombre = codes "#,##0.00";
  adresse_gabarit = none;
  fournisseurs_paiement = [];
}

abbrev global : ConfigurationGlobale
global = record {
  devise_id = none;
  langue_id = none;
  fuseau_horaire = codes "UTC";
  format_date = codes "DD/MM/YYYY";
  format_nombre = codes "#,##0.00";
  modifie_le = 0;
}

resolved_from_levels_example :
    let levels = niveaux ports none (some agency) none global in
    IsFirst levels (λ n. n.fuseau_horaire) (codes "Africa/Dakar")
    × IsFirst levels (λ n. n.format_date) (codes "DD/MM/YYYY")
    × IsFirst levels (λ n. n.format_nombre) (codes "#,##0.00")
unfolding resolve_app_config respond resolve_tous_les_champs resolve_champ
resolved_from_levels_example = resolved_from_levels ports (some global) 3 command answer refl
