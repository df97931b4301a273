-- ===== src/Referential/Circulation.antt =====
-- Which currency circulates in a country (`PaysDevise` of
-- src/referential/domain/entities/relations.entity.ts, `AttachDeviseToPaysUseCase` of
-- src/referential/application/use-cases/devise.use-cases.ts). Which countries and currencies exist are
-- arguments. The dates are whole days, as the columns of type `date` keep them.
use core_kernel.Prelude.{
  ℕ, Bool, true, false, not, ◌&&◌, Option, none, some, List, leb, ◌==◌, if◌then◌else◌, find?, save,
  Action, Result, ok, err, pure, lift, modify, raise_if, ◌>>=◌, ◌>>◌,
}

pub record PaysDevise : Type 0 where
  pub id : ℕ
  pub pays_id : ℕ
  pub devise_id : ℕ
  pub date_debut : ℕ
  pub date_fin : Option ℕ
  pub devise_principale : Bool

pub data CirculationError : Type 0 where
  pays_not_found : CirculationError
  devise_not_found : CirculationError
  invalid_period : CirculationError

abbrev pub ends_too_early : ℕ → Option ℕ → Bool
ends_too_early debut none = false
ends_too_early debut (some fin) = leb fin debut

-- `PaysDevise.create`
unfoldable pub create_pays_devise : PaysDevise → Result CirculationError PaysDevise
create_pays_devise r = if ends_too_early r.date_debut r.date_fin then err invalid_period else ok r

-- `endCirculation`
unfoldable pub end_circulation : ℕ → PaysDevise → PaysDevise
end_circulation date_fin r = record r { date_fin = some date_fin }

abbrev pub runs_until : ℕ → Option ℕ → Bool
runs_until at none = true
runs_until at (some fin) = leb at fin

-- The condition of `findPrincipaleActive`.
unfoldable pub is_principale_active : ℕ → ℕ → PaysDevise → Bool
is_principale_active pays_id at r =
    r.pays_id == pays_id
    && (r.devise_principale && (leb r.date_debut at && runs_until at r.date_fin))

unfoldable pub find_principale_active : ℕ → ℕ → List PaysDevise → Option PaysDevise
unfolding is_principale_active
find_principale_active pays_id at = find? (is_principale_active pays_id at)

abbrev pub relation_key : PaysDevise → ℕ
relation_key r = r.id

abbrev pub CirculationTask : Type 0 → Type 0
CirculationTask A = Action (List PaysDevise) CirculationError A

-- The former principal currency is closed at the date at which the new one begins.
abbrev pub close : ℕ → Option PaysDevise → List PaysDevise → List PaysDevise
close at none rows = rows
close at (some r) rows = save relation_key (end_circulation at r) rows

-- `AttachDeviseToPaysUseCase.execute`
unfoldable pub attach_devise : (ℕ → Bool) → (ℕ → Bool) → PaysDevise → CirculationTask ℕ
unfolding find_principale_active
attach_devise pays_exists devise_exists r = do
  raise_if (not (pays_exists r.pays_id)) pays_not_found
  raise_if (not (devise_exists r.devise_id)) devise_not_found
  modify (λ rows.
      if r.devise_principale
      then close r.date_debut (find_principale_active r.pays_id r.date_debut rows) rows
      else rows)
  relation ← lift (create_pays_devise r)
  modify (save relation_key relation)
  pure relation.id
