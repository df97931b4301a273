-- ===== src/Product/Tests.antt =====
-- Runs of the product catalogue on concrete data.
use core_kernel.Prelude.{
  ℕ, ◌≡◌, refl, inl, inr, Bool, true, Option, none, some, List, [], ◌∷◌, ok, codes,
}
use core_kernel.Product.Errors.{Statut, brouillon, publie, ponctuel, unique}
use core_kernel.Product.Catalogue.{Catalogue, scope_global}
use core_kernel.Product.Catalogue as Catalogues
use core_kernel.Product.Offre as Offres
use core_kernel.Product.Grille.Windows.{Grille, is_effective_at}
use core_kernel.Product.Grille.Store.{
  Store, Request, publish_request, validate_request, serve, resolve_active_price, price_of,
}
use core_kernel.Product.Grille.NoOverlap.{IsConsistent, serve-IsConsistent}
use core_kernel.Product.Grille.Price.{resolve_active_price_unique}

abbrev grid : ℕ → ℕ → ℕ → Option ℕ → Statut → Grille
grid id version debut fin statut = record {
  id = id;
  offre_id = 7;
  version = version;
  devise_id = 3;
  montant_minor_unit = 1500;
  periode_facturation = codes "mensuelle";
  date_effective = debut;
  date_fin = fin;
  statut_workflow = statut;
  cree_le = 1;
}

abbrev first_grid : Grille
first_grid = grid 1 1 100 (some 200) publie

abbrev draft_grid : Grille
draft_grid = grid 2 2 150 none brouillon

abbrev shop : Store
shop = record { offres = []; grilles = first_grid ∷ []; events = [] }

one_grid-IsConsistent : IsConsistent (first_grid ∷ [])
one_grid-IsConsistent = record {
  keyed = (refl, tt);
  apart =
      λ g h m k e. elim m [ inl p ↦ elim k [ inl q ↦ cc | inr q ↦ absurd q ] | inr q ↦ absurd q ];
}

abbrev certified : ℕ → Bool
certified id = true

abbrev requests : List (ℕ × Request)
requests = (10, validate_request 1) ∷ (20, publish_request 1) ∷ []

serve-IsConsistent_example : IsConsistent (serve certified requests shop).grilles
serve-IsConsistent_example = serve-IsConsistent certified requests shop one_grid-IsConsistent

resolve_active_price_unique_example :
    resolve_active_price 7 3 150 shop ≡ (ok (price_of first_grid), shop)
unfolding is_effective_at
resolve_active_price_unique_example =
    resolve_active_price_unique 7 3 150 first_grid shop one_grid-IsConsistent (inl refl) refl

abbrev empty_shop : Store
empty_shop = record { offres = []; grilles = []; events = [] }

abbrev catalogue : Statut → Catalogue
catalogue statut = record {
  id = 1;
  produit_id = 2;
  nom = codes "Base";
  scope = record { kind = Catalogues.portefeuille_global; cible_id = none };
  est_actif = true;
  statut_workflow = statut;
  cree_le = 1;
  modifie_le = 1;
}

abbrev setup_offer : Offres.Offre
setup_offer = record {
  id = 4;
  produit_id = 2;
  code = codes "setup";
  nom = codes "Setup";
  kind = ponctuel;
  periode_facturation = unique;
  est_actif = true;
  statut_workflow = brouillon;
  cree_le = 9;
  modifie_le = 9;
}
