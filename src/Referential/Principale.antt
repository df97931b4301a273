-- ===== src/Referential/Principale.antt =====
-- A country can get two principal currencies.
use core_kernel.Prelude.{
  ℕ, ◌≤◌, ◌<◌, ◌≡◌, refl, ◌∙◌, Bool, true, false, none, some, List, arith, ◌==◌, ==_refl,
  find_by_key, find_by_key-save,
}
use core_kernel.Referential.Circulation.{
  PaysDevise, create_pays_devise, is_principale_active, find_principale_active, relation_key,
  attach_devise,
}

abbrev pub open_principale : ℕ → ℕ → ℕ → ℕ → PaysDevise
open_principale id pays_id devise_id date_debut = record {
  id = id;
  pays_id = pays_id;
  devise_id = devise_id;
  date_debut = date_debut;
  date_fin = none;
  devise_principale = true;
}

-- Where a country has a principal currency whose circulation begins later and has no end, and none at
-- the date at which another begins: to attach the other one, without an end, leaves both principal
-- and in circulation from the later date on.
pub attach_devise_two_principales :
    (pays_exists devise_exists : ℕ → Bool) (id pays_id devise_id date_debut : ℕ)
    (later : PaysDevise) (rows : List PaysDevise)
    → pays_exists pays_id ≡ true
    → devise_exists devise_id ≡ true
    → find_principale_active pays_id date_debut rows ≡ none
    → find_by_key relation_key later.id rows ≡ some later
    → later.pays_id ≡ pays_id
    → later.devise_principale ≡ true
    → later.date_fin ≡ none
    → date_debut < later.date_debut
    → (id == later.id) ≡ false
    → (at : ℕ) → later.date_debut ≤ at
    → let rows' =
        (attach_devise pays_exists devise_exists
          (open_principale id pays_id devise_id date_debut)
          rows).1 in
      (find_by_key relation_key later.id rows' ≡ some later)
      × (is_principale_active pays_id at later ≡ true)
      × (find_by_key relation_key id rows' ≡ some (open_principale id pays_id devise_id date_debut))
      × (is_principale_active pays_id at (open_principale id pays_id devise_id date_debut) ≡ true)
unfolding attach_devise create_pays_devise is_principale_active
attach_devise_two_principales pays_exists devise_exists id pays_id devise_id date_debut later rows p
      d free found same principal open_end lt other at le =
    let r = open_principale id pays_id devise_id date_debut in
    rw (p, d, free)
      (
        find_by_key-save relation_key later.id r rows ∙ rw other found,
        ground arith,
        find_by_key-save relation_key id r rows ∙ rw (==_refl id) refl,
        ground (arith, ==_refl pays_id),
      )
