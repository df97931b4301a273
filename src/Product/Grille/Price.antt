-- ===== src/Product/Grille/Price.antt =====
-- The price of an offer at an instant is the one price that applies.
use core_kernel.Prelude.{
  ℕ, ◌<◌, ◌≡◌, ◌∙◌, sym, ap, Bool, true, false, ◌&&◌, some, List, [], ◌∷◌, arith, ok, err, Member,
  inl, inr, ◌==◌, find?, find?-Member, find?-none, filter-Member, Member-filter, Bool-cases,
  Option-cases, Member-find_by_key, find_by_key,
}
use core_kernel.Product.Errors.{grille_not_found}
use core_kernel.Product.Grille.Windows.{Grille, is_effective_at, effective-ranges_overlap}
use core_kernel.Product.Grille.Store.{
  Store, grille_key, published_for, is_published_for, resolve_active_price, price_of,
  latest_version, next_version,
}
use core_kernel.Product.Grille.NoOverlap.{IsConsistent}

-- The grid is a published one of the offer and the currency, and applies at the instant.
abbrev pub applies : ℕ → ℕ → ℕ → Grille → Bool
applies offre_id devise_id t g = is_published_for offre_id devise_id g && is_effective_at t g

unique_grid :
    (o d t : ℕ) (g h : Grille) (s : Store)
    → IsConsistent s.grilles
    → Member g s.grilles
    → Member h s.grilles
    → applies o d t g ≡ true
    → applies o d t h ≡ true
    → g ≡ h
unique_grid o d t g h s c mg mh pg ph = elim (Bool-cases (g.id == h.id)) [
  | inl e ↦
      let ids : g.id ≡ h.id = ground arith in
      let found : some g ≡ some h =
        sym (Member-find_by_key grille_key g s.grilles c.keyed mg)
        ∙ ap (λ k. find_by_key grille_key k s.grilles) ids
        ∙ Member-find_by_key grille_key h s.grilles c.keyed mh in
      cc
  | inr e ↦ absurd (ground (arith, c.apart g h mg mh e, effective-ranges_overlap t g h))
]

-- In consistent grids the price that is resolved is that of the grid which applies: whichever
-- published grid of the offer and currency is effective at the instant, its price is the answer.
pub resolve_active_price_unique :
    (o d t : ℕ) (g : Grille) (s : Store)
    → IsConsistent s.grilles
    → Member g s.grilles
    → applies o d t g ≡ true
    → resolve_active_price o d t s ≡ (ok (price_of g), s)
unfolding resolve_active_price
resolve_active_price_unique o d t g s c m p =
    elim (Option-cases (find? (is_effective_at t) (published_for o d s))) [
      | inl e ↦ absurd (
          ground (
            arith,
            find?-none (is_effective_at t) g (published_for o d s) e
                (Member-filter (is_published_for o d) g s.grilles m (ground arith)),
          ))
      | inr (h, e) ↦
          let (found, effective) = find?-Member (is_effective_at t) h (published_for o d s) e in
          let (member, listed) = filter-Member (is_published_for o d) h s.grilles found in
          rw e (rw (unique_grid o d t g h s c m member p (ground arith)))
    ]

-- If no published grid of the offer and the currency is effective at the instant, the answer is an
-- error and never a default price.
pub resolve_active_price_missing :
    (o d t : ℕ) (s : Store)
    → ((g : Grille) → Member g s.grilles → applies o d t g ≡ false)
    → resolve_active_price o d t s ≡ (err grille_not_found, s)
unfolding resolve_active_price
resolve_active_price_missing o d t s h =
    elim (Option-cases (find? (is_effective_at t) (published_for o d s))) [
      | inl e ↦ rw e
      | inr (g, e) ↦
          let (found, effective) = find?-Member (is_effective_at t) g (published_for o d s) e in
          let (member, listed) = filter-Member (is_published_for o d) g s.grilles found in
          absurd (ground (arith, h g member))
    ]

-- The version given to a new grid is above that of every stored grid of its offer.
pub next_version_above :
    (o : ℕ) (g : Grille) (gs : List Grille)
    → Member g gs
    → g.offre_id ≡ o
    → g.version < next_version (latest_version o gs)
unfolding latest_version
next_version_above o g [] m e = absurd m
next_version_above o g (h ∷ gs) m e = ground (arith, next_version_above o g gs)
