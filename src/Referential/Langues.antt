-- ===== src/Referential/Langues.antt =====
-- The languages of a country (`PaysLangue` of src/referential/domain/entities/relations.entity.ts,
-- `AttachLangueToPaysUseCase` of src/referential/application/use-cases/langue.use-cases.ts) and what
-- src/referential/infrastructure/adapters/referential-defaults-lookup.adapter.ts takes for the
-- principal one.
use core_kernel.Prelude.{
  ℕ, Bool, not, Option, none, some, List, [], ◌∷◌, ltb, leb, ◌==◌, if◌then◌else◌, filter, sort,
  save, Action, pure, modify, raise_if, ◌>>◌,
}

-- `StatutPaysLangue`
pub data StatutPaysLangue : Type 0 where
  officielle nationale enseignement_initial vehiculaire : StatutPaysLangue

pub record PaysLangue : Type 0 where
  pub id : ℕ
  pub pays_id : ℕ
  pub langue_id : ℕ
  pub statut : StatutPaysLangue
  pub ordre : ℕ

pub data LangueError : Type 0 where
  pays_not_found langue_not_found : LangueError

abbrev pub relation_key : PaysLangue → ℕ
relation_key r = r.id

-- `AttachLangueToPaysUseCase.execute`
unfoldable pub attach_langue :
    (ℕ → Bool) → (ℕ → Bool) → PaysLangue → Action (List PaysLangue) LangueError ℕ
attach_langue pays_exists langue_exists r = do
  raise_if (not (pays_exists r.pays_id)) pays_not_found
  raise_if (not (langue_exists r.langue_id)) langue_not_found
  modify (save relation_key r)
  pure r.id

-- `PRIORITE_STATUT_LANGUE`
unfoldable pub priorite_statut : StatutPaysLangue → ℕ
priorite_statut officielle = 0
priorite_statut nationale = 1
priorite_statut enseignement_initial = 2
priorite_statut vehiculaire = 3

abbrev pub head : {A : Type 0} → List A → Option A
head [] = none
head (x ∷ xs) = some x

abbrev pub by_ordre : PaysLangue → PaysLangue → Bool
by_ordre a b = leb a.ordre b.ordre

-- The comparison of `getPaysDefaults`, not above zero.
unfoldable pub by_priorite : PaysLangue → PaysLangue → Bool
unfolding priorite_statut
by_priorite a b =
    if priorite_statut a.statut == priorite_statut b.statut
    then leb a.ordre b.ordre
    else ltb (priorite_statut a.statut) (priorite_statut b.statut)

-- `findByPays`
unfoldable pub find_by_pays : ℕ → List PaysLangue → List PaysLangue
find_by_pays pays_id rows = sort by_ordre (filter (λ r. r.pays_id == pays_id) rows)

-- `langueParDefaut`
unfoldable pub langue_par_defaut : ℕ → List PaysLangue → Option PaysLangue
unfolding by_priorite find_by_pays
langue_par_defaut pays_id rows = head (sort by_priorite (find_by_pays pays_id rows))
