-- ===== src/Referential/Configured.antt =====
-- What the configuration of a user takes from the referential data: Referential.Lookup answers the
-- resolution of AppConfig.Resolve.
use core_kernel.Prelude.{
  given, ℕ, ◌≡◌, refl, sym, ap, ◌∙◌, inl, inr, false, Option, none, some, List, ◌∷◌, Text, ok, ◌==◌,
  Member,
}
use core_kernel.AppConfig.Heritage.{
  Niveau, ConfigurationGlobale, resolve_champ, resolve_tous_les_champs,
}
use core_kernel.AppConfig.Resolve.{
  Ports, Command, AppConfigResponse, Referentiel, resolve_app_config, respond, niveau_referentiel,
  unite_referentiel, configuration_or_default, pays_of, first_some,
}
use core_kernel.AppConfig.Priority.{resolve_responds}
use core_kernel.Referential.Entites.{Pays}
use core_kernel.Referential.Langues.{PaysLangue, langue_par_defaut}
use core_kernel.Referential.Langue.{IsPrincipale, langue_par_defaut-IsPrincipale}
use core_kernel.Referential.Lookup.{
  Tables, find_pays, find_devise, find_langue, code_at, get_pays_defaults, enrich_codes,
  referential_ports,
}
use core_kernel.Referential.Choice.{Offers, resolve_locale_offered}

-- The codes of an answer are those of the rows that its identifiers name, and its locale is an active
-- one of the table.
pub record IsBacked (s : Tables) (r : AppConfigResponse) : Type 0 where
  pub pays : r.pays_code ≡ code_at (λ p. p.code_iso) (λ i. find_pays i s) (given r.pays_id)
  pub devise :
      r.devise_code ≡ code_at (λ d. d.code_iso4217) (λ i. find_devise i s) (given r.devise_id)
  pub langue :
      r.langue_code ≡ code_at (λ l. l.code_iso639) (λ i. find_langue i s) (given r.langue_id)
  pub locale : (l : Text) → r.locale ≡ some l → Offers s.locales l

respond-IsBacked :
    (s : Tables) (now : ℕ) (others : Ports) (u a o : Option Referentiel) (g : ConfigurationGlobale)
    → IsBacked s (respond (referential_ports now s others) u a o g)
unfolding respond enrich_codes
respond-IsBacked s now others u a o g = record {
  pays = refl;
  devise = refl;
  langue = refl;
  locale = λ l e. (resolve_locale_offered _ _ s.locales l e).0;
}

-- If the configuration of a user is resolved with the answers of the referential data, then the three
-- codes of the answer are those of the rows that its identifiers name, where there are any, and its
-- locale is the code of an active locale of the table.
pub resolved-IsBacked :
    (s : Tables) (others : Ports) (globale : Option ConfigurationGlobale) (now : ℕ) (c : Command)
    (r : AppConfigResponse)
    → resolve_app_config (referential_ports now s others) globale now c ≡ ok r
    → IsBacked s r
resolved-IsBacked s others globale now c r h =
    rw (resolve_responds (referential_ports now s others) globale now c r h)
      (respond-IsBacked s now others _ _ _ _)

skip_level :
    (n : Niveau) (ns : List Niveau) (champ : Niveau → Option ℕ)
    → champ n ≡ none
    → resolve_champ (n ∷ ns) champ ≡ resolve_champ ns champ
unfolding resolve_champ
skip_level n ns champ e = rw (e, resolve_champ) refl

take_level :
    (n : Niveau) (ns : List Niveau) (champ : Niveau → Option ℕ) (v : ℕ)
    → champ n ≡ some v
    → resolve_champ (n ∷ ns) champ ≡ some v
unfolding resolve_champ
take_level n ns champ v e = rw (e, resolve_champ) refl

-- The level names no language.
abbrev Silent : Option Referentiel → Type 0
Silent o = (niveau_referentiel o).langue_id ≡ none

respond_language :
    (s : Tables) (now : ℕ) (others : Ports) (u a o : Option Referentiel) (g : ConfigurationGlobale)
    (p : ℕ) (row : Pays) (rel : PaysLangue)
    → first_some (pays_of u) (first_some (pays_of a) (pays_of o)) ≡ some p
    → (p == 0) ≡ false
    → find_pays p s ≡ some row
    → Silent u
    → Silent a
    → Silent o
    → langue_par_defaut p s.pays_langues ≡ some rel
    → (respond (referential_ports now s others) u a o g).langue_id ≡ some rel.langue_id
unfolding respond get_pays_defaults resolve_tous_les_champs
respond_language s now others u a o g p row rel place some_p found su sa so best =
    let champ : Niveau → Option ℕ = λ n. n.langue_id in
    rw (place, some_p, found)
      (skip_level (niveau_referentiel u) _ champ su
        ∙ skip_level (niveau_referentiel a) _ champ sa
        ∙ skip_level (niveau_referentiel o) _ champ so
        ∙ take_level _ _ champ rel.langue_id (rw best refl))

-- If the configuration of a user is resolved with the answers of the referential data, its country is
-- in the table and has a language, and the user, the unit and the organisation name no language, then
-- the language of the answer is a language of that country, of the best status, and of the lowest
-- order among those.
pub country_language_answered :
    (s : Tables) (others : Ports) (globale : Option ConfigurationGlobale) (now : ℕ) (c : Command)
    (r : AppConfigResponse) (p : ℕ) (row : Pays) (spoken : PaysLangue)
    → resolve_app_config (referential_ports now s others) globale now c ≡ ok r
    → r.pays_id ≡ some p
    → (p == 0) ≡ false
    → find_pays p s ≡ some row
    → Member spoken s.pays_langues
    → spoken.pays_id ≡ p
    → Silent (others.get_referentiel c.gsg_id)
    → Silent (unite_referentiel others (given c.unite_operationnelle_id) c.gsg_org_id)
    → Silent (others.get_organisation_referentiel c.gsg_org_id)
    → (rel : PaysLangue) × IsPrincipale p s.pays_langues rel × (r.langue_id ≡ some rel.langue_id)
unfolding respond
country_language_answered s others globale now c r p row spoken h place some_p found m own su sa
      so =
    let answer = resolve_responds (referential_ports now s others) globale now c r h in
    elim (langue_par_defaut-IsPrincipale p s.pays_langues) [
      | inl (rel, best, principal) ↦ (
        rel,
        principal,
        ap (λ (x : AppConfigResponse). x.langue_id) answer
            ∙ respond_language s now others (others.get_referentiel c.gsg_id)
                (unite_referentiel (referential_ports now s others)
                  (given c.unite_operationnelle_id) c.gsg_org_id)
                (others.get_organisation_referentiel c.gsg_org_id)
                (configuration_or_default globale now) p row rel
                (sym (ap (λ (x : AppConfigResponse). x.pays_id) answer) ∙ place) some_p found su
                (same_unit (given c.unite_operationnelle_id) sa) so best,
      )
      | inr (_, none_spoken) ↦ absurd (none_spoken spoken m own)
    ]
  where
    same_unit :
        (u : Option ℕ)
        → Silent (unite_referentiel others u c.gsg_org_id)
        → Silent (unite_referentiel (referential_ports now s others) u c.gsg_org_id)
    same_unit none e = e
    same_unit (some i) e = e
