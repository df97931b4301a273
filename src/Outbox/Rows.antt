-- ===== src/Outbox/Rows.antt =====
-- What the updates of the outbox table do to single rows.
use core_kernel.Prelude.{
  ℕ, zero, suc, ◌≡◌, refl, ap, ◌∙◌, inl, inr, ◌⊎◌, true, none, some, List, [], ◌∷◌, ◌++◌, map,
  arith, ◌==◌, if◌then◌else◌, is_some, find_by_key, IsKeyed, Member, filter-Member,
}
use core_kernel.Outbox.Table.{
  Row, KernelEvent, new_row, row_key, is_en_attente, sort_by_date, insert_by_date, take,
  find_pending_batch, insert,
}

-- An update that keeps identifiers.
abbrev pub KeepsId : (Row → Row) → Type 0
KeepsId f = (r : Row) → (f r).id ≡ r.id

pub find-map :
    (f : Row → Row) (id : ℕ) (r : Row) (rows : List Row)
    → KeepsId f
    → find_by_key row_key id rows ≡ some r
    → find_by_key row_key id (map f rows) ≡ some (f r)
find-map f id r [] keeps h = cc
find-map f id r (x ∷ xs) keeps h = let q = keeps x in ground (arith, find-map f id r xs keeps)

pub absent-map :
    (f : Row → Row) (id : ℕ) (rows : List Row)
    → KeepsId f
    → find_by_key row_key id rows ≡ none
    → find_by_key row_key id (map f rows) ≡ none
absent-map f id [] keeps h = refl
absent-map f id (x ∷ xs) keeps h = let q = keeps x in ground (arith, absent-map f id xs keeps)

pub map-IsKeyed :
    (f : Row → Row) (rows : List Row)
    → KeepsId f
    → IsKeyed row_key rows
    → IsKeyed row_key (map f rows)
map-IsKeyed f [] keeps h = tt
map-IsKeyed f (x ∷ xs) keeps h = (
  ap (λ i. find_by_key row_key i (map f xs)) (keeps x) ∙ absent-map f x.id xs keeps h.0,
  map-IsKeyed f xs keeps h.1,
)

pub map-Member :
    (f : Row → Row) (r : Row) (rows : List Row)
    → Member r (map f rows)
    → (x : Row) × Member x rows × (r ≡ f x)
map-Member f r [] m = absurd m
map-Member f r (x ∷ xs) (inl e) = (x, inl refl, e)
map-Member f r (x ∷ xs) (inr m) = let (y, my, e) = map-Member f r xs m in (y, inr my, e)

pub append-Member :
    {A : Type 0} (a : A) (xs ys : List A) → Member a (xs ++ ys) → Member a xs ⊎ Member a ys
append-Member a [] ys m = inr m
append-Member a (x ∷ xs) ys (inl e) = inl (inl e)
append-Member a (x ∷ xs) ys (inr m) = elim (append-Member a xs ys m) [
  | inl k ↦ inl (inr k)
  | inr k ↦ inr k
]

pub Member-append_left : {A : Type 0} (a : A) (xs ys : List A) → Member a xs → Member a (xs ++ ys)
Member-append_left a [] ys m = absurd m
Member-append_left a (x ∷ xs) ys (inl e) = inl e
Member-append_left a (x ∷ xs) ys (inr m) = inr (Member-append_left a xs ys m)

pub Member-append_right : {A : Type 0} (a : A) (xs ys : List A) → Member a ys → Member a (xs ++ ys)
Member-append_right a [] ys m = m
Member-append_right a (x ∷ xs) ys m = inr (Member-append_right a xs ys m)

find-append :
    (id : ℕ) (rows : List Row) (new : Row)
    → find_by_key row_key id (rows ++ (new ∷ [])) ≡ (
        if is_some (find_by_key row_key id rows)
        then find_by_key row_key id rows
        else if new.id == id
        then some new
        else none)
find-append id [] new = ground arith
find-append id (x ∷ xs) new = ground (arith, find-append id xs new)

append-IsKeyed :
    (rows : List Row) (new : Row)
    → find_by_key row_key new.id rows ≡ none
    → IsKeyed row_key rows
    → IsKeyed row_key (rows ++ (new ∷ []))
append-IsKeyed [] new h k = (refl, tt)
append-IsKeyed (x ∷ xs) new h k = ground (arith, append-IsKeyed xs new, find-append x.id xs new)

pub insert-find :
    (id' : ℕ) (e : KernelEvent) (now id : ℕ) (r : Row) (rows : List Row)
    → find_by_key row_key id rows ≡ some r
    → find_by_key row_key id (insert id' e now rows) ≡ some r
unfolding insert
insert-find id' e now id r rows h = ground (arith, find-append id rows (new_row id' e now))

pub insert-IsKeyed :
    (id : ℕ) (e : KernelEvent) (now : ℕ) (rows : List Row)
    → IsKeyed row_key rows
    → IsKeyed row_key (insert id e now rows)
unfolding insert
insert-IsKeyed id e now rows k = ground (arith, append-IsKeyed rows (new_row id e now))

insert_by_date-Member :
    (b r : Row) (rows : List Row) → Member b (insert_by_date r rows) → (b ≡ r) ⊎ Member b rows
insert_by_date-Member b r [] m = m
insert_by_date-Member b r (x ∷ xs) m = ground (arith, insert_by_date-Member b r xs)

sort-Member : (b : Row) (rows : List Row) → Member b (sort_by_date rows) → Member b rows
sort-Member b [] m = m
sort-Member b (r ∷ rs) m =
    ground (arith, insert_by_date-Member b r (sort_by_date rs), sort-Member b rs)

take-Member : (n : ℕ) (b : Row) (rows : List Row) → Member b (take n rows) → Member b rows
take-Member zero b rows m = absurd m
take-Member (suc n) b [] m = absurd m
take-Member (suc n) b (x ∷ xs) m = ground (arith, take-Member n b xs)

-- The rows of a batch are rows of the table that wait.
pub batch-Member :
    (limit : ℕ) (b : Row) (rows : List Row)
    → Member b (find_pending_batch limit rows)
    → Member b rows × (is_en_attente b.statut ≡ true)
unfolding find_pending_batch
batch-Member limit b rows m =
    filter-Member (λ r. is_en_attente r.statut) b rows (sort-Member b _ (take-Member limit b _ m))
