-- ===== src/Referential/Tests.antt =====
-- The referential data on small inputs.
use core_kernel.Prelude.{
  ℕ, ◌≡◌, ◌⊎◌, ◌-◌, ◌+◌, refl, true, false, Bool, none, some, [], ◌∷◌, Text, codes, arith, Member,
  total, find_by_key, err, text_eq,
}
use core_kernel.Engine.Hierarchy.{get_compte}
use core_kernel.Engine.Villes.{Weather, ville_moved, handle_message}
use core_kernel.Referential.Ville.{Villes, add_ville, move_ville}
use core_kernel.Referential.Compte.{cities_at, consume}
use core_kernel.Referential.Counted.{IsPlaced, consume-cities_at, redelivery_counts_twice}
use core_kernel.Referential.Locale.{
  Locale, Locales, locale_key, set_defaut, set_par_defaut, find_by_code, find_par_defaut,
  resolve_locale,
}
use core_kernel.Referential.Defaut.{IsUnique, mark, set_par_defaut_one}
use core_kernel.Referential.Circulation.{
  is_principale_active, find_principale_active, relation_key, attach_devise,
}
use core_kernel.Referential.Principale.{open_principale, attach_devise_two_principales}
use core_kernel.Referential.Adhesion.{
  Adhesions, PaysBlocRegional, adhesion_key, create_adhesion, add_pays_to_bloc,
  withdraw_pays_from_bloc,
}
use core_kernel.Referential.Memberships.{Leads, Kept, membership-Kept}
use core_kernel.Referential.Taux.{
  TauxChange, is_pair, is_valid_at, rate_of, no_valid_exchange_rate, resolve_exchange_rate,
}
use core_kernel.Referential.Rate.{IsLatest, resolve_exchange_rate-IsLatest}
use core_kernel.Referential.Entites.{CreatePays, pays_kind, add_pays, deactivate_pays}
use core_kernel.Referential.Codes.{IsCoded}
use core_kernel.Referential.Countries.{IsMapped, deactivated_pays, mapped-IsCoded}

abbrev any_id : ℕ → Bool
any_id id = true

abbrev no_city : Villes
no_city = record { villes = []; events = [] }

-- A city that is created at the node 7, and moved to the node 9.
abbrev one_city : Villes
one_city =
    (move_ville any_id 6 1 (some 9)
      (add_ville any_id any_id 5 1 3 (codes "Labe") (some 7) no_city).1).1

consume-cities_at_example : get_compte 9 (consume one_city.events []) ≡ cities_at 9 one_city.villes
consume-cities_at_example =
    consume-cities_at any_id any_id one_city 9 (
      IsPlaced.moved 6 1 (some 9)
        (IsPlaced.added 5 1 3 (codes "Labe") (some 7) refl IsPlaced.empty))

abbrev unacknowledged : Weather
unacknowledged = record { first = true; second = true; acks = false }

redelivery_counts_twice_example :
    let (acked, once) = handle_message unacknowledged (ville_moved (some 7) (some 9)) [] in
    let (acked', twice) = handle_message unacknowledged (ville_moved (some 7) (some 9)) once in
    (acked ≡ false)
    × (get_compte 7 twice ≡ get_compte 7 [] - 2)
    × (get_compte 9 twice ≡ get_compte 9 [] + 2)
redelivery_counts_twice_example =
    redelivery_counts_twice unacknowledged unacknowledged 7 9 [] refl refl refl refl refl refl refl
      refl

abbrev locale : ℕ → Bool → Locale
locale id est_par_defaut = record {
  id = id;
  code = codes "fr";
  libelle = codes "Francais";
  est_par_defaut = est_par_defaut;
  est_actif = true;
  cree_le = 5;
  modifie_le = 5;
}

abbrev locales : Locales
locales = record { locales = locale 1 true ∷ locale 2 false ∷ []; traductions = []; events = [] }

locales-IsUnique : IsUnique locales
locales-IsUnique = record { keyed = (refl, (refl, tt)); one = ground arith }

set_par_defaut_one_example :
    (total mark (set_par_defaut 9 2 locales).1.locales ≡ 1)
    × (find_by_key locale_key 2 (set_par_defaut 9 2 locales).1.locales
        ≡ some (set_defaut 9 true (locale 2 false)))
set_par_defaut_one_example = set_par_defaut_one 9 2 (locale 2 false) locales locales-IsUnique refl

chosen : resolve_locale (some (codes "fr")) none (locale 1 true ∷ []) ≡ some (codes "fr")
unfolding resolve_locale find_by_code find_par_defaut text_eq
chosen = refl

none_yet : find_principale_active 3 50 (open_principale 1 3 4 100 ∷ []) ≡ none
unfolding find_principale_active is_principale_active
none_yet = refl

-- The currency 4 will be principal in the country 3 from 100 on; the currency 5 is attached from 50 on.
attach_devise_two_principales_example :
    let rows' =
      (attach_devise any_id any_id (open_principale 2 3 5 50) (open_principale 1 3 4 100 ∷ [])).1 in
    (find_by_key relation_key 1 rows' ≡ some (open_principale 1 3 4 100))
    × (is_principale_active 3 120 (open_principale 1 3 4 100) ≡ true)
    × (find_by_key relation_key 2 rows' ≡ some (open_principale 2 3 5 50))
    × (is_principale_active 3 120 (open_principale 2 3 5 50) ≡ true)
attach_devise_two_principales_example =
    attach_devise_two_principales any_id any_id 2 3 5 50 (open_principale 1 3 4 100)
      (open_principale 1 3 4 100 ∷ []) refl refl none_yet refl refl refl refl (ground arith) refl
      120 (ground arith)

abbrev rate : TauxChange
rate = record {
  id = 1;
  devise_base_id = 4;
  devise_cible_id = 5;
  taux = codes "655.957";
  valid_du = 10;
  valid_au = none;
  source = codes "BCEAO";
}

resolve_exchange_rate-IsLatest_example :
    ((t : TauxChange) × IsLatest 4 5 20 (rate ∷ []) t
      × (resolve_exchange_rate 4 5 20 (rate ∷ [])
          ≡ rate_of (no_valid_exchange_rate 4 5 20) (some t)))
    ⊎ (((b : TauxChange) → Member b (rate ∷ []) → is_pair 4 5 b ≡ true → is_valid_at 20 b ≡ false)
        × (resolve_exchange_rate 4 5 20 (rate ∷ []) ≡ err (no_valid_exchange_rate 4 5 20)))
resolve_exchange_rate-IsLatest_example = resolve_exchange_rate-IsLatest 4 5 20 (rate ∷ []) refl

abbrev guinee : CreatePays
guinee = record {
  code_iso = codes "GN";
  nom = codes "Guinee";
  organisme_regional_principal = none;
  notes_souverainete = none;
  adresse_gabarit = none;
  fuseau_horaire = none;
}

-- A normalisation that is stable: it gives one code for all.
abbrev constant : Text → Text
constant t = codes "GN"

mapped-IsCoded_example :
    IsCoded pays_kind
      (deactivate_pays 6 1 (add_pays constant 5 1 guinee (record { rows = []; events = [] })).1).1
mapped-IsCoded_example =
    mapped-IsCoded constant (λ t. refl)
      (deactivated_pays 6 1 (IsMapped.added 5 1 guinee refl IsMapped.empty))

abbrev no_adhesion : Adhesions
no_adhesion = record { rows = []; events = [] }

-- The country 9 joins the block 4.
abbrev joined : Adhesions
joined = (add_pays_to_bloc any_id any_id 1 9 4 100 no_adhesion).1

abbrev member : PaysBlocRegional
member = create_adhesion 1 9 4 100

joined_row : find_by_key adhesion_key 1 joined.rows ≡ some member
unfolding add_pays_to_bloc create_adhesion
joined_row = refl

membership-Kept_example : Kept 1 member (withdraw_pays_from_bloc 1 200 joined).1
membership-Kept_example =
    membership-Kept 1 member joined (withdraw_pays_from_bloc 1 200 joined).1 joined_row
      (Leads.withdraws 1 200 joined joined (Leads.stays joined))
