-- ===== src/Product/Grille/Store.antt =====
-- The tables behind the price grids and the use cases on them
-- (src/product/application/use-cases/grille-tarifaire.use-cases.ts and the repository of the grids
-- in src/product/infrastructure/persistence/typeorm/orm-repositories.ts).
use core_kernel.Prelude.{
  ℕ, ◌+◌, Bool, true, false, ◌&&◌, not, Option, none, some, List, [], ◌∷◌, ◌++◌, Action, pure, gets,
  or_raise, lift, modify, raise_if, ◌>>=◌, ◌>>◌, Text, ltb, ◌==◌, if◌then◌else◌, JsNumber, filter,
  find?, find_by_key, save,
}
use core_kernel.Product.Errors.{
  publie, ProductError, offre_not_found, grille_not_found, uncertified_currency,
}
use core_kernel.Product.Workflow.{statut_eq}
use core_kernel.Product.LifeCycle.{Move, validate, reject_to_draft, publish, archive_it}
use core_kernel.Product.Offre.{Offre}
use core_kernel.Product.Grille.Windows.{
  Grille, create, move, is_effective_at, assert_no_overlap_with_existing,
}

-- The events that the use cases hand to the publisher, with their payload.
pub data ProductEvent : Type 0 where
  pricing_grid_created : ℕ → ℕ → ℕ → ℕ → ProductEvent
  pricing_grid_published : ℕ → ℕ → ℕ → ProductEvent
  pricing_grid_archived : ℕ → ProductEvent

pub record Store : Type 0 where
  pub offres : List Offre
  pub grilles : List Grille
  pub events : List ProductEvent

abbrev pub offre_key : Offre → ℕ
offre_key o = o.id

abbrev pub grille_key : Grille → ℕ
grille_key g = g.id

abbrev pub Task : Type 0 → Type 0
Task A = Action Store ProductError A

-- `findPublieesByOffreEtDevise`
abbrev pub is_published_for : ℕ → ℕ → Grille → Bool
is_published_for offre_id devise_id g =
    g.offre_id == offre_id && g.devise_id == devise_id && statut_eq publie g.statut_workflow

abbrev pub published_for : ℕ → ℕ → Store → List Grille
published_for offre_id devise_id s = filter (is_published_for offre_id devise_id) s.grilles

abbrev later_version : Bool → ℕ → Option ℕ → Option ℕ
later_version false v rest = rest
later_version true v none = some v
later_version true v (some w) = some (if ltb v w then w else v)

-- The version of `findLatestVersion`: the greatest of the offer's grids, none where it has no grid.
unfoldable pub latest_version : ℕ → List Grille → Option ℕ
latest_version offre_id [] = none
latest_version offre_id (g ∷ gs) =
    later_version (g.offre_id == offre_id) g.version (latest_version offre_id gs)

-- `derniereVersion ? derniereVersion.version + 1 : 1`
abbrev pub next_version : Option ℕ → ℕ
next_version none = 1
next_version (some v) = v + 1

abbrev pub put_grille : Grille → Store → Store
put_grille g s = record s { grilles = save grille_key g s.grilles }

abbrev pub emit : ProductEvent → Store → Store
emit e s = record s { events = s.events ++ (e ∷ []) }

pub record CreateCommand : Type 0 where
  pub offre_id : ℕ
  pub devise_id : ℕ
  pub montant_minor_unit : JsNumber
  pub periode_facturation : Text
  pub date_effective : ℕ
  pub date_fin : Option ℕ

-- `CreateGrilleTarifaireUseCase.execute`: `certified` is the currency port, `id` the new identifier.
unfoldable pub create_grille : (ℕ → Bool) → ℕ → ℕ → CreateCommand → Task ℕ
create_grille certified id now c = do
  _ ← or_raise (← gets (λ s. find_by_key offre_key c.offre_id s.offres)) offre_not_found
  raise_if (not (certified c.devise_id)) (uncertified_currency c.devise_id)
  version ← gets (λ s. next_version (latest_version c.offre_id s.grilles))
  grille ← lift (
      create id c.offre_id version c.devise_id c.montant_minor_unit c.periode_facturation
        c.date_effective c.date_fin now)
  publiees ← gets (published_for c.offre_id c.devise_id)
  lift (assert_no_overlap_with_existing grille publiees)
  modify (put_grille grille)
  modify (emit (pricing_grid_created id c.offre_id c.devise_id version))
  pure id

unfoldable get_grille : ℕ → Task Grille
get_grille id = do or_raise (← gets (λ s. find_by_key grille_key id s.grilles)) grille_not_found

-- `TransitionGrilleTarifaireWorkflowUseCase.validate` and `.rejectToDraft`
unfoldable pub change_grille : Move → ℕ → ℕ → Task (Unit {0})
unfolding get_grille
change_grille m now id = do
  grille ← get_grille id
  changed ← lift (move m now grille)
  modify (put_grille changed)

-- `TransitionGrilleTarifaireWorkflowUseCase.publish`
unfoldable pub publish_grille : ℕ → ℕ → Task (Unit {0})
unfolding get_grille
publish_grille now id = do
  grille ← get_grille id
  publiees ← gets (published_for grille.offre_id grille.devise_id)
  lift (assert_no_overlap_with_existing grille publiees)
  published ← lift (move publish now grille)
  modify (put_grille published)
  modify (emit (pricing_grid_published grille.id grille.offre_id grille.devise_id))

-- `TransitionGrilleTarifaireWorkflowUseCase.archive`
unfoldable pub archive_grille : ℕ → ℕ → Task (Unit {0})
unfolding get_grille
archive_grille now id = do
  grille ← get_grille id
  archived ← lift (move archive_it now grille)
  modify (put_grille archived)
  modify (emit (pricing_grid_archived grille.id))

pub record ActivePrice : Type 0 where
  pub grille_id : ℕ
  pub version : ℕ
  pub montant_minor_unit : ℕ
  pub devise_id : ℕ

abbrev pub price_of : Grille → ActivePrice
price_of g = record {
  grille_id = g.id;
  version = g.version;
  montant_minor_unit = g.montant_minor_unit;
  devise_id = g.devise_id;
}

-- `ResolveActivePriceUseCase.execute`
unfoldable pub resolve_active_price : ℕ → ℕ → ℕ → Task ActivePrice
resolve_active_price offre_id devise_id instant = do
  publiees ← gets (published_for offre_id devise_id)
  active ← or_raise (find? (is_effective_at instant) publiees) grille_not_found
  pure (price_of active)

-- The requests that change the price grids.
pub data Request : Type 0 where
  create_request : ℕ → CreateCommand → Request
  validate_request reject_request publish_request archive_request : ℕ → Request

unfoldable pub handle : (ℕ → Bool) → ℕ → Request → Task (Unit {0})
unfolding create_grille change_grille publish_grille archive_grille
handle certified now (create_request id c) = create_grille certified id now c >>= λ _. pure tt
handle certified now (validate_request id) = change_grille validate now id
handle certified now (reject_request id) = change_grille reject_to_draft now id
handle certified now (publish_request id) = publish_grille now id
handle certified now (archive_request id) = archive_grille now id

-- Requests that are served one after the other, each at its time.
unfoldable pub serve : (ℕ → Bool) → List (ℕ × Request) → Store → Store
serve certified [] s = s
serve certified ((now, r) ∷ rs) s = serve certified rs (handle certified now r s).1
