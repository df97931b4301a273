-- ===== src/Referential/Lookup.antt =====
-- What the referential data answers to the resolution of the configuration
-- (src/referential/infrastructure/adapters/referential-defaults-lookup.adapter.ts).
use core_kernel.Prelude.{given, ℕ, Option, none, some, List, Text, find_by_key}
use core_kernel.AppConfig.Resolve.{PaysDefaults, CodesEnrichis, Ports}
use core_kernel.Referential.Entites.{Pays}
use core_kernel.Referential.Devises.{Devise, Langue}
use core_kernel.Referential.Circulation.{PaysDevise, find_principale_active}
use core_kernel.Referential.Langues.{PaysLangue, langue_par_defaut}
use core_kernel.Referential.Locale.{Locale, resolve_locale}

-- The six tables that it reads.
pub record Tables : Type 0 where
  pub pays : List Pays
  pub devises : List Devise
  pub langues : List Langue
  pub pays_devises : List PaysDevise
  pub pays_langues : List PaysLangue
  pub locales : List Locale

abbrev pub map_some {ℓ κ} : {A : Type ℓ} {B : Type κ} → (A → B) → Option A → Option B
map_some f none = none
map_some f (some a) = some (f a)

abbrev pub find_pays : ℕ → Tables → Option Pays
find_pays id s = find_by_key (λ p. p.id) id s.pays

abbrev pub find_devise : ℕ → Tables → Option Devise
find_devise id s = find_by_key (λ d. d.id) id s.devises

abbrev pub find_langue : ℕ → Tables → Option Langue
find_langue id s = find_by_key (λ l. l.id) id s.langues

-- `getPaysDefaults`
unfoldable pub get_pays_defaults : ℕ → Tables → ℕ → Option PaysDefaults
get_pays_defaults now s pays_id =
    map_some
      (λ (p : Pays). record {
        code_iso = p.code_iso;
        devise_id_principale =
            map_some (λ r. r.devise_id) (find_principale_active pays_id now s.pays_devises);
        langue_id_principale =
            map_some (λ r. r.langue_id) (langue_par_defaut pays_id s.pays_langues);
        fuseau_horaire = p.fuseau_horaire;
        adresse_gabarit = p.adresse_gabarit;
      })
      (find_pays pays_id s)

-- `id ? repository.findById(id) : null`, and the code of what is found.
abbrev pub code_at : {Row : Type 0} → (Row → Text) → (ℕ → Option Row) → Option ℕ → Option Text
code_at code find none = none
code_at code find (some id) = map_some code (find id)

-- `enrichCodes`
unfoldable pub enrich_codes : Tables → Option ℕ → Option ℕ → Option ℕ → CodesEnrichis
enrich_codes s pays_id devise_id langue_id = record {
  pays_code = code_at (λ p. p.code_iso) (λ i. find_pays i s) (given pays_id);
  devise_code = code_at (λ d. d.code_iso4217) (λ i. find_devise i s) (given devise_id);
  langue_code = code_at (λ l. l.code_iso639) (λ i. find_langue i s) (given langue_id);
}

-- `ReferentialDefaultsLookupAdapter`, beside what the other components answer
abbrev pub referential_ports : ℕ → Tables → Ports → Ports
referential_ports now s others = record others {
  get_pays_defaults = get_pays_defaults now s;
  enrich_codes = enrich_codes s;
  resolve_locale = λ langue pays. resolve_locale langue pays s.locales;
}
