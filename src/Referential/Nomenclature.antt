-- ===== src/Referential/Nomenclature.antt =====
-- What the countries, currencies, languages and regional blocks share: the publication workflow
-- (src/referential/domain/entities/workflow.ts) and the shape of their use cases.
use core_kernel.Prelude.{
  ℕ, Bool, true, false, not, List, [], ◌∷◌, Text, text_eq, any, find_by_key, save, throw_if, Action,
  Result, ok, err, pure, gets, or_raise, lift, modify, raise_if, ◌>>=◌, ◌>>◌,
}

-- `StatutWorkflow`
pub data Statut : Type 0 where
  brouillon en_revision valide publie : Statut

abbrev statut_eq : Statut → Statut → Bool
statut_eq brouillon brouillon = true
statut_eq en_revision en_revision = true
statut_eq valide valide = true
statut_eq publie publie = true
statut_eq _ _ = false

-- `ALLOWED_TRANSITIONS`
unfoldable pub allowed_transitions : Statut → List Statut
allowed_transitions brouillon = en_revision ∷ []
allowed_transitions en_revision = valide ∷ brouillon ∷ []
allowed_transitions valide = publie ∷ en_revision ∷ []
allowed_transitions publie = []

pub data NomenclatureError : Type 0 where
  workflow_transition : Statut → Statut → NomenclatureError
  invalid_code : Text → NomenclatureError
  invalid_decimales : NomenclatureError
  code_already_exists : Text → NomenclatureError
  not_found : NomenclatureError

-- `assertTransitionAllowed`
unfoldable pub assert_transition_allowed : Statut → Statut → Result NomenclatureError (Unit {0})
unfolding allowed_transitions
assert_transition_allowed from to =
    throw_if (not (any (statut_eq to) (allowed_transitions from))) (workflow_transition from to)

-- What the use cases need of an entity.
pub record Kind (Row : Type 0) : Type 0 where
  pub id : Row → ℕ
  pub code : Row → Text
  pub statut : Row → Statut
  pub with_statut : ℕ → Statut → Row → Row

pub data NomenclatureEvent : Type 0 where
  created published : ℕ → Text → NomenclatureEvent
  deactivated : ℕ → NomenclatureEvent

pub record Nomenclature (Row : Type 0) : Type 0 where
  pub rows : List Row
  pub events : List NomenclatureEvent

-- What follows an assertion.
abbrev pub after_assert :
    {Row : Type 0} → Result NomenclatureError (Unit {0}) → Row → Result NomenclatureError Row
after_assert (ok _) r = ok r
after_assert (err e) r = err e

module _ {Row : Type 0} (k : Kind Row) where
  abbrev pub Task : Type 0 → Type 0
  Task A = Action (Nomenclature Row) NomenclatureError A

  abbrev pub put : Row → Nomenclature Row → Nomenclature Row
  put r s = record s { rows = save k.id r s.rows }

  abbrev pub emit : NomenclatureEvent → Nomenclature Row → Nomenclature Row
  emit e s = record s { events = e ∷ s.events }

  -- `existsByCode…`
  unfoldable pub exists_by_code : Text → List Row → Bool
  exists_by_code code = any (λ r. text_eq (k.code r) code)

  unfoldable pub get_row : ℕ → Task Row
  get_row id = do found ← gets (λ s. find_by_key k.id id s.rows); or_raise found not_found

  -- The creation of an entity of a normalised code.
  unfoldable pub add_row : Text → Result NomenclatureError Row → Task ℕ
  unfolding exists_by_code
  add_row code_normalise made = do
    deja_existant ← gets (λ s. exists_by_code code_normalise s.rows)
    raise_if deja_existant (code_already_exists code_normalise)
    row ← lift made
    modify (put row)
    modify (emit (created (k.id row) (k.code row)))
    pure (k.id row)

  -- A transition of the entity: `submitForReview`, `validate`, `rejectToDraft` and `publish`
  unfoldable pub move_row : Statut → ℕ → Row → Result NomenclatureError Row
  unfolding assert_transition_allowed
  move_row to now r =
      after_assert (assert_transition_allowed (k.statut r) to) (k.with_statut now to r)

  -- The use cases `submitForReview`, `validate` and `rejectToDraft`
  unfoldable pub transition_row : Statut → ℕ → ℕ → Task (Unit {0})
  unfolding get_row move_row
  transition_row to now id = do
    row ← get_row id
    moved ← lift (move_row to now row)
    modify (put moved)

  -- The use case `publish`
  unfoldable pub publish_row : ℕ → ℕ → Task (Unit {0})
  unfolding get_row move_row
  publish_row now id = do
    row ← get_row id
    moved ← lift (move_row publie now row)
    modify (put moved)
    modify (emit (published (k.id moved) (k.code moved)))

  -- A use case that changes the row that it finds.
  unfoldable pub change_row : (Row → Row) → ℕ → Task (Unit {0})
  unfolding get_row
  change_row f id = do row ← get_row id; modify (put (f row))
