-- ===== src/Product/Grille/Windows.antt =====
-- The entity of a price grid, and the windows `[debut, fin)` in which grids apply.
use core_kernel.Prelude.{
  ℕ, ◌≤◌, ◌≡◌, ◌↔◌, refl, Bool, true, false, ◌&&◌, not, Option, none, some, List, [], ◌∷◌, arith,
  Result, ok, err, and_then, Text, ltb, leb, ◌==◌, if◌then◌else◌, JsNumber, natural, Member, inl,
  inr,
}
use core_kernel.Product.Errors.{
  Statut, brouillon, ProductError, invalid_montant, invalid_version, invalid_validity_window,
  overlapping_pricing_grid,
}
use core_kernel.Product.Workflow.{assert_transition_allowed, is_allowed}
use core_kernel.Product.LifeCycle.{Move, target, LifeCycle, Follows, assert-Follows}

pub record Grille : Type 0 where
  pub id : ℕ
  pub offre_id : ℕ
  pub version : ℕ
  pub devise_id : ℕ
  pub montant_minor_unit : ℕ
  pub periode_facturation : Text
  pub date_effective : ℕ
  pub date_fin : Option ℕ
  pub statut_workflow : Statut
  pub cree_le : ℕ

-- `dateFin && dateFin <= dateEffective`
abbrev pub ends_before_start : ℕ → Option ℕ → Bool
ends_before_start debut none = false
ends_before_start debut (some fin) = leb fin debut

-- The amount is checked to be an integer that is not negative; the version, which the use case
-- counts, to be positive.
unfoldable pub create :
    ℕ → ℕ → ℕ → ℕ → JsNumber → Text → ℕ → Option ℕ → ℕ → Result ProductError Grille
create id offre_id version devise_id (natural montant) periode debut fin now =
    if version == 0
    then err (invalid_version version)
    else if ends_before_start debut fin
    then err invalid_validity_window
    else ok (record {
      id = id;
      offre_id = offre_id;
      version = version;
      devise_id = devise_id;
      montant_minor_unit = montant;
      periode_facturation = periode;
      date_effective = debut;
      date_fin = fin;
      statut_workflow = brouillon;
      cree_le = now;
    })
create id offre_id version devise_id montant periode debut fin now = err (invalid_montant montant)

-- `fin === null || instant < fin`
abbrev pub before_end : ℕ → Option ℕ → Bool
before_end instant none = true
before_end instant (some fin) = ltb instant fin

unfoldable pub is_effective_at : ℕ → Grille → Bool
is_effective_at instant g = leb g.date_effective instant && before_end instant g.date_fin

abbrev pub statut_workflow : Grille → Statut
statut_workflow g = g.statut_workflow

-- `validate`, `rejectToDraft`, `publish` and `archive`; a grid keeps no date of change.
unfoldable pub move : Move → ℕ → Grille → Result ProductError Grille
unfolding assert_transition_allowed
move m now g =
    and_then (assert_transition_allowed g.statut_workflow (target m))
      (λ _. ok (record g { statut_workflow = target m }))

pub move-Follows :
    (m : Move) (now : ℕ) (g : Grille)
    → Follows statut_workflow g (target m) (is_allowed g.statut_workflow (target m)) (move m now g)
unfolding move
move-Follows m now g = assert-Follows statut_workflow g _ (target m) refl

abbrev pub life_cycle : LifeCycle Grille
life_cycle = record { statut = statut_workflow; move = move; follows = move-Follows }

unfoldable pub ranges_overlap : ℕ → Option ℕ → ℕ → Option ℕ → Bool
ranges_overlap debut_a fin_a debut_b fin_b = before_end debut_a fin_b && before_end debut_b fin_a

unfoldable pub assert_no_overlap_with_existing :
    Grille → List Grille → Result ProductError (Unit {0})
assert_no_overlap_with_existing candidate [] = ok tt
assert_no_overlap_with_existing candidate (existante ∷ rest) =
    let next = assert_no_overlap_with_existing candidate rest in
    if existante.id == candidate.id
    then next
    else if not (existante.devise_id == candidate.devise_id)
    then next
    else if ranges_overlap candidate.date_effective candidate.date_fin existante.date_effective
        existante.date_fin
    then err (overlapping_pricing_grid candidate.offre_id candidate.devise_id)
    else next

-- A window with an end ends after it starts.
abbrev pub IsWindow : ℕ → Option ℕ → Type 0
IsWindow debut fin = ends_before_start debut fin ≡ false

abbrev later_start : ℕ → ℕ → ℕ
later_start a b = if leb a b then b else a

-- Two windows, each of which ends after it starts, overlap exactly if some instant lies in both.
pub ranges_overlap_common_instant :
    (debut_a : ℕ) (fin_a : Option ℕ) (debut_b : ℕ) (fin_b : Option ℕ)
    → IsWindow debut_a fin_a
    → IsWindow debut_b fin_b
    → (ranges_overlap debut_a fin_a debut_b fin_b ≡ true) ↔ (
        (t : ℕ) × (debut_a ≤ t)
        × (debut_b ≤ t)
        × (before_end t fin_a ≡ true)
        × (before_end t fin_b ≡ true))
unfolding ranges_overlap
ranges_overlap_common_instant a fin_a b fin_b wa wb = (
  λ h. (later_start a b, ground arith, ground arith, ground arith, ground arith),
  λ w. ground arith,
)

pub ranges_overlap_comm :
    (a : ℕ) (fa : Option ℕ) (b : ℕ) (fb : Option ℕ)
    → ranges_overlap a fa b fb ≡ ranges_overlap b fb a fa
unfolding ranges_overlap
ranges_overlap_comm a fa b fb = ground arith

-- Two grids that are both effective at one instant have windows that overlap.
pub effective-ranges_overlap :
    (t : ℕ) (g h : Grille)
    → is_effective_at t g ≡ true
    → is_effective_at t h ≡ true
    → ranges_overlap g.date_effective g.date_fin h.date_effective h.date_fin ≡ true
unfolding ranges_overlap is_effective_at
effective-ranges_overlap t g h p q = ground arith

-- If the check has let a candidate through, then no grid of the list with another identifier and
-- the same currency overlaps it.
pub assert_no_overlap_sound :
    (c e : Grille) (gs : List Grille)
    → assert_no_overlap_with_existing c gs ≡ ok tt
    → Member e gs
    → (e.id == c.id) ≡ false
    → (e.devise_id == c.devise_id) ≡ true
    → ranges_overlap c.date_effective c.date_fin e.date_effective e.date_fin ≡ false
unfolding assert_no_overlap_with_existing
assert_no_overlap_sound c e [] h m i d = absurd m
assert_no_overlap_sound c e (g ∷ gs) h (inl m) i d = ground arith
assert_no_overlap_sound c e (g ∷ gs) h (inr m) i d =
    assert_no_overlap_sound c e gs (ground arith) m i d
