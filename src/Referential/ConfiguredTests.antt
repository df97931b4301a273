-- ===== src/Referential/ConfiguredTests.antt =====
-- The configuration of a user from small tables.
use core_kernel.Prelude.{ℕ, ◌≡◌, refl, inl, true, none, some, [], ◌∷◌, codes, ok}
use core_kernel.AppConfig.Resolve.{
  Ports, Command, Referentiel, AppConfigResponse, resolve_app_config, respond,
}
use core_kernel.AppConfig.Heritage.{resolve_champ, resolve_tous_les_champs, create_configuration}
use core_kernel.Referential.Circulation.{find_principale_active}
use core_kernel.Referential.Locale.{resolve_locale, find_par_defaut, find_by_code}
use core_kernel.Referential.Nomenclature.{publie}
use core_kernel.Referential.Entites.{Pays}
use core_kernel.Referential.Devises.{Langue}
use core_kernel.Referential.Langues.{
  StatutPaysLangue, PaysLangue, officielle, nationale, langue_par_defaut, find_by_pays, by_priorite,
  priorite_statut,
}
use core_kernel.Referential.Langue.{IsPrincipale}
use core_kernel.Referential.Lookup.{Tables, referential_ports, enrich_codes, get_pays_defaults}
use core_kernel.Referential.Configured.{country_language_answered}

abbrev guinea : Pays
guinea = record {
  id = 9;
  code_iso = codes "GN";
  nom = codes "Guinea";
  organisme_regional_principal = none;
  notes_souverainete = none;
  adresse_gabarit = none;
  fuseau_horaire = some (codes "Africa/Conakry");
  est_actif = true;
  statut_workflow = publie;
  cree_le = 1;
  modifie_le = 1;
}

abbrev french : Langue
french = record {
  id = 3;
  code_iso639 = codes "fr";
  nom = codes "French";
  est_actif = true;
  statut_workflow = publie;
  cree_le = 1;
  modifie_le = 1;
}

abbrev spoken : ℕ → ℕ → StatutPaysLangue → PaysLangue
spoken id langue_id statut = record {
  id = id;
  pays_id = 9;
  langue_id = langue_id;
  statut = statut;
  ordre = id;
}

-- A national language is stored before the official one.
abbrev tables : Tables
tables = record {
  pays = guinea ∷ [];
  devises = [];
  langues = french ∷ [];
  pays_devises = [];
  pays_langues = spoken 1 4 nationale ∷ spoken 2 3 officielle ∷ [];
  locales = [];
}

abbrev home : Referentiel
home = record { pays_id = some 9; devise_id = none; langue_id = none; fuseau_horaire = none }

abbrev others : Ports
others = record {
  exists_and_active = λ id. true;
  get_referentiel = λ id. none;
  get_organisation_referentiel = λ id. some home;
  get_unite_referentiel = λ unite org. none;
  get_pays_defaults = λ id. none;
  enrich_codes =
      λ pays devise langue. record { pays_code = none; devise_code = none; langue_code = none };
  resolve_locale = λ langue pays. none;
}

abbrev command : Command
command = record {
  gsg_id = 1;
  requesting_user_gsg_org_ids = 2 ∷ [];
  gsg_org_id = 2;
  unite_operationnelle_id = none;
}

abbrev answer : AppConfigResponse
answer = record {
  pays_id = some 9;
  pays_code = some (codes "GN");
  devise_id = none;
  devise_code = none;
  langue_id = some 3;
  langue_code = some (codes "fr");
  locale = none;
  fuseau_horaire = codes "Africa/Conakry";
  format_date = codes "DD/MM/YYYY";
  format_nombre = codes "#,##0.00";
  adresse_gabarit = none;
  fournisseurs_paiement = [];
}

resolved : resolve_app_config (referential_ports 5 tables others) none 5 command ≡ ok answer
unfolding resolve_app_config respond resolve_tous_les_champs resolve_champ create_configuration
    enrich_codes get_pays_defaults langue_par_defaut find_by_pays by_priorite priorite_statut
    find_principale_active resolve_locale find_par_defaut find_by_code
resolved = refl

country_language_answered_example :
    (rel : PaysLangue) × IsPrincipale 9 tables.pays_langues rel
    × (answer.langue_id ≡ some rel.langue_id)
country_language_answered_example =
    country_language_answered tables others none 5 command answer 9 guinea (spoken 1 4 nationale)
      resolved refl refl refl (inl refl) refl refl refl refl
