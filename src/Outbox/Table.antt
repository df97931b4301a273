-- ===== src/Outbox/Table.antt =====
-- The table of events to relay
-- (src/common/kernel-infrastructure/outbox/outbox-event.repository.ts and outbox-event.orm-entity.ts).
use core_kernel.Prelude.{
  ℕ, zero, suc, ◌+◌, Bool, true, false, ◌&&◌, Option, none, some, List, [], ◌∷◌, ◌++◌, map, Text,
  leb, ◌==◌, if◌then◌else◌, filter, find_by_key, is_some,
}

pub data StatutOutbox : Type 0 where
  en_attente publie echec : StatutOutbox

abbrev pub is_en_attente : StatutOutbox → Bool
is_en_attente en_attente = true
is_en_attente _ = false

-- `OutboxEventRecord`; the payload is its JSON text.
pub record Row : Type 0 where
  pub id : ℕ
  pub type_name : Text
  pub gsg_org_id : Option ℕ
  pub horodatage : ℕ
  pub produit_source : Text
  pub charge_utile : Text
  pub statut : StatutOutbox
  pub tentatives : ℕ
  pub derniere_erreur : Option Text
  pub cree_le : ℕ
  pub publie_le : Option ℕ

abbrev pub row_key : Row → ℕ
row_key r = r.id

-- `KernelEvent`
pub record KernelEvent : Type 0 where
  pub type_name : Text
  pub gsg_org_id : Option ℕ
  pub horodatage : ℕ
  pub produit_source : Text
  pub charge_utile : Text

abbrev pub new_row : ℕ → KernelEvent → ℕ → Row
new_row id e now = record {
  id = id;
  type_name = e.type_name;
  gsg_org_id = e.gsg_org_id;
  horodatage = e.horodatage;
  produit_source = e.produit_source;
  charge_utile = e.charge_utile;
  statut = en_attente;
  tentatives = 0;
  derniere_erreur = none;
  cree_le = now;
  publie_le = none;
}

-- `insert`, called by `OutboxEventPublisherService.publish`: a primary key that exists is refused by
-- the database, and the publisher logs the error and goes on.
unfoldable pub insert : ℕ → KernelEvent → ℕ → List Row → List Row
insert id e now rows =
    if is_some (find_by_key row_key id rows) then rows else rows ++ (new_row id e now ∷ [])

-- `order: { creeLe: 'ASC' }`; rows of one date keep their order.
abbrev pub insert_by_date : Row → List Row → List Row
insert_by_date r [] = r ∷ []
insert_by_date r (x ∷ xs) =
    let rest = insert_by_date r xs in if leb r.cree_le x.cree_le then r ∷ x ∷ xs else x ∷ rest

abbrev pub sort_by_date : List Row → List Row
sort_by_date [] = []
sort_by_date (r ∷ rs) = insert_by_date r (sort_by_date rs)

abbrev pub take : ℕ → List Row → List Row
take zero xs = []
take (suc n) [] = []
take (suc n) (x ∷ xs) = x ∷ take n xs

-- `findPendingBatch`
unfoldable pub find_pending_batch : ℕ → List Row → List Row
find_pending_batch limit rows =
    take limit (sort_by_date (filter (λ r. is_en_attente r.statut) rows))

-- `update({ id }, …)`
abbrev pub update : ℕ → (Row → Row) → List Row → List Row
update id f = map (λ r. if r.id == id then f r else r)

unfoldable pub mark_published : ℕ → ℕ → List Row → List Row
mark_published id now = update id (λ r. record r { statut = publie; publie_le = some now })

-- `erreur.slice(0, n)`
abbrev pub slice : ℕ → Text → Text
slice zero t = []
slice (suc n) [] = []
slice (suc n) (c ∷ t) = c ∷ slice n t

unfoldable pub mark_failed_attempt : ℕ → Text → List Row → List Row
mark_failed_attempt id erreur =
    update id
      (λ r. record r { tentatives = r.tentatives + 1; derniere_erreur = some (slice 2000 erreur) })

abbrev pub is_exhausted : ℕ → Row → Bool
is_exhausted max r = is_en_attente r.statut && leb max r.tentatives

unfoldable pub mark_permanently_failed : ℕ → List Row → List Row
mark_permanently_failed max =
    map (λ r. if is_exhausted max r then record r { statut = echec } else r)
