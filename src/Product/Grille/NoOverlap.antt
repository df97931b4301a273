-- ===== src/Product/Grille/NoOverlap.antt =====
-- At no time do two published grids of one offer and one currency apply at the same instant.
use core_kernel.Prelude.{
  ℕ, ◌≡◌, ◌∙◌, refl, Bool, false, ◌&&◌, not, Option, List, [], ◌∷◌, arith, Result, ok, Member, inl,
  inr, ◌⊎◌, ◌==◌, IsKeyed, save, save-IsKeyed, Member-save, Member-filter, find_by_key, Bool-cases,
  forget_state, or_raise_cases, lift_cases, raise_if_cases, JsNumber, Text,
}
use core_kernel.Product.Errors.{publie, ProductError}
use core_kernel.Product.Workflow.{statut_eq}
use core_kernel.Product.LifeCycle.{Move, target, publish, validate, reject_to_draft, archive_it}
use core_kernel.Product.Grille.Windows.{
  Grille, create, move, ranges_overlap, ranges_overlap_comm, assert_no_overlap_with_existing,
  assert_no_overlap_sound,
}
use core_kernel.Product.Grille.Store.{
  Store, Request, create_request, validate_request, reject_request, publish_request,
  archive_request, offre_key, CreateCommand, grille_key, published_for, is_published_for, handle,
  serve, create_grille, change_grille, publish_grille, archive_grille,
}

-- Both grids are published, for one offer and one currency, and their windows overlap.
abbrev pub conflict : Grille → Grille → Bool
conflict g h =
    statut_eq publie g.statut_workflow
    && statut_eq publie h.statut_workflow
    && g.offre_id == h.offre_id
    && g.devise_id == h.devise_id
    && ranges_overlap g.date_effective g.date_fin h.date_effective h.date_fin

-- Grids have different identifiers, and no two of them are in conflict.
pub record IsConsistent (gs : List Grille) : Type 0 where
  pub keyed : IsKeyed grille_key gs
  pub apart :
      (g h : Grille) → Member g gs → Member h gs → (g.id == h.id) ≡ false → conflict g h ≡ false

conflict_comm : (g h : Grille) → conflict g h ≡ conflict h g
conflict_comm g h =
    ground (arith, ranges_overlap_comm g.date_effective g.date_fin h.date_effective h.date_fin)

save-IsConsistent :
    (r : Grille) (gs : List Grille)
    → IsConsistent gs
    → ((h : Grille) → Member h gs → (r.id == h.id) ≡ false → conflict r h ≡ false)
    → IsConsistent (save grille_key r gs)
save-IsConsistent r gs c fits = record {
  keyed = save-IsKeyed grille_key r gs c.keyed;
  apart = λ g h mg mh ne.
      pair g h (Member-save grille_key g r gs mg) (Member-save grille_key h r gs mh) ne;
}
  where
    pair :
        (g h : Grille)
        → (g ≡ r) ⊎ Member g gs
        → (h ≡ r) ⊎ Member h gs
        → (g.id == h.id) ≡ false
        → conflict g h ≡ false
    pair g h (inl p) (inl q) ne = ground arith
    pair g h (inl p) (inr q) ne = rw p (fits h q (rw p at ne))
    pair g h (inr p) (inl q) ne = rw q (conflict_comm g r ∙ fits g p (ground arith))
    pair g h (inr p) (inr q) ne = c.apart g h p q ne

-- A grid that is not published is in conflict with none.
unpublished_fits :
    (r h : Grille) → statut_eq publie r.statut_workflow ≡ false → conflict r h ≡ false
unpublished_fits r h e = rw e

-- A move to another status than `publie` leaves a grid that is not published, the same otherwise.
moved_unpublished :
    (m : Move) (now : ℕ) (g r : Grille)
    → statut_eq publie (target m) ≡ false
    → move m now g ≡ ok r
    → statut_eq publie r.statut_workflow ≡ false
unfolding move
moved_unpublished m now g r e h = ground arith

-- What every request has to keep.
abbrev Keeps : {A : Type 0} → Result ProductError A × Store → Type 0
Keeps (_, s) = IsConsistent s.grilles

change_grille-IsConsistent :
    (m : Move) (now id : ℕ) (s : Store)
    → statut_eq publie (target m) ≡ false
    → IsConsistent s.grilles
    → IsConsistent (change_grille m now id s).1.grilles
unfolding change_grille
change_grille-IsConsistent m now id s e c =
    or_raise_cases Keeps (find_by_key grille_key id s.grilles) _ _ s
      (λ g _.
        lift_cases Keeps (move m now g) _ s
          (λ r q.
            save-IsConsistent r s.grilles c
              (λ h _ _. unpublished_fits r h (moved_unpublished m now g r e q)))
          (λ _ _. c))
      (λ _. c)

archive_grille-IsConsistent :
    (now id : ℕ) (s : Store)
    → IsConsistent s.grilles
    → IsConsistent (archive_grille now id s).1.grilles
unfolding archive_grille
archive_grille-IsConsistent now id s c =
    or_raise_cases Keeps (find_by_key grille_key id s.grilles) _ _ s
      (λ g _.
        lift_cases Keeps (move archive_it now g) _ s
          (λ r q.
            save-IsConsistent r s.grilles c
              (λ h _ _. unpublished_fits r h (moved_unpublished archive_it now g r refl q)))
          (λ _ _. c))
      (λ _. c)

created_unpublished :
    (id o v d : ℕ) (m : JsNumber) (p : Text) (b : ℕ) (f : Option ℕ) (now : ℕ) (r : Grille)
    → create id o v d m p b f now ≡ ok r
    → statut_eq publie r.statut_workflow ≡ false
unfolding create
created_unpublished id o v d m p b f now r h = ground arith

create_grille-IsConsistent :
    (certified : ℕ → Bool) (id now : ℕ) (k : CreateCommand) (s : Store)
    → IsConsistent s.grilles
    → IsConsistent (create_grille certified id now k s).1.grilles
unfolding create_grille
create_grille-IsConsistent certified id now k s c =
    or_raise_cases Keeps (find_by_key offre_key k.offre_id s.offres) _ _ s
      (λ o _.
        raise_if_cases Keeps (not (certified k.devise_id)) _ _ s
          (λ _.
            lift_cases Keeps
              (create id k.offre_id _ k.devise_id k.montant_minor_unit k.periode_facturation
                k.date_effective k.date_fin now)
              _ s
              (λ r q.
                lift_cases Keeps
                  (assert_no_overlap_with_existing r (published_for k.offre_id k.devise_id s)) _ s
                  (λ _ _.
                    save-IsConsistent r s.grilles c
                      (λ h _ _. unpublished_fits r h (created_unpublished _ _ _ _ _ _ _ _ _ r q)))
                  (λ _ _. c))
              (λ _ _. c))
          (λ _. c))
      (λ _. c)

-- The published grid fits beside the others: those in question were checked.
published_fits :
    (now : ℕ) (g r h : Grille) (s : Store)
    → assert_no_overlap_with_existing g (published_for g.offre_id g.devise_id s) ≡ ok tt
    → move publish now g ≡ ok r
    → Member h s.grilles
    → (r.id == h.id) ≡ false
    → conflict r h ≡ false
unfolding move
published_fits now g r h s checked moved m ne =
    elim (Bool-cases (is_published_for g.offre_id g.devise_id h)) [
      | inl listed ↦ ground (
        arith,
        assert_no_overlap_sound g h (published_for g.offre_id g.devise_id s) checked
            (Member-filter (is_published_for g.offre_id g.devise_id) h s.grilles m listed),
      )
      | inr other ↦ ground arith
    ]

publish_grille-IsConsistent :
    (now id : ℕ) (s : Store)
    → IsConsistent s.grilles
    → IsConsistent (publish_grille now id s).1.grilles
unfolding publish_grille
publish_grille-IsConsistent now id s c =
    or_raise_cases Keeps (find_by_key grille_key id s.grilles) _ _ s
      (λ g _.
        lift_cases Keeps
          (assert_no_overlap_with_existing g (published_for g.offre_id g.devise_id s)) _ s
          (λ _ checked.
            lift_cases Keeps (move publish now g) _ s
              (λ r q.
                save-IsConsistent r s.grilles c
                  (λ h m ne. published_fits now g r h s checked q m ne))
              (λ _ _. c))
          (λ _ _. c))
      (λ _. c)

handle-IsConsistent :
    (certified : ℕ → Bool) (now : ℕ) (q : Request) (s : Store)
    → IsConsistent s.grilles
    → IsConsistent (handle certified now q s).1.grilles
unfolding handle
handle-IsConsistent certified now (create_request id k) s c =
    let (r, s') = create_grille certified id now k s in
    rw (forget_state r s') (create_grille-IsConsistent certified id now k s c)
handle-IsConsistent certified now (validate_request id) s c =
    change_grille-IsConsistent validate now id s refl c
handle-IsConsistent certified now (reject_request id) s c =
    change_grille-IsConsistent reject_to_draft now id s refl c
handle-IsConsistent certified now (publish_request id) s c = publish_grille-IsConsistent now id s c
handle-IsConsistent certified now (archive_request id) s c = archive_grille-IsConsistent now id s c

-- Whatever requests are served, one after the other, from consistent grids, no two published grids
-- of one offer and one currency overlap.
pub serve-IsConsistent :
    (certified : ℕ → Bool) (rs : List (ℕ × Request)) (s : Store)
    → IsConsistent s.grilles
    → IsConsistent (serve certified rs s).grilles
unfolding serve
serve-IsConsistent certified [] s c = c
serve-IsConsistent certified ((now, q) ∷ rs) s c =
    serve-IsConsistent certified rs (handle certified now q s).1
      (handle-IsConsistent certified now q s c)
