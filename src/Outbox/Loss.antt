-- ===== src/Outbox/Loss.antt =====
-- An outage of the stream that lasts as many cycles as there are attempts loses the event
-- (outbox-relay.service.ts).
use core_kernel.Prelude.{
  ℕ, zero, suc, ◌+◌, ◌≤◌, ◌≡◌, refl, sym, ap, subst, ◌∙◌, inl, inr, ◌⊎◌, Bool, true, false, some,
  List, [], ◌∷◌, ◌++◌, map, arith, Text, ◌==◌, if◌then◌else◌, Member, All, length, filter,
  find_by_key-Member, Member-filter,
}
use core_kernel.Outbox.Table.{
  Row, en_attente, echec, row_key, find_pending_batch, sort_by_date, insert_by_date, take, slice,
  mark_failed_attempt, mark_permanently_failed, is_en_attente, is_exhausted,
}
use core_kernel.Outbox.Relay.{
  Relay, Weather, refused, Step, cycled, swept, fail, relay_one, relay_batch, run_cycle,
  sweep_permanent_failures, perform_all,
}
use core_kernel.Outbox.Outage.{IsUnsent, map-IsUnsent, echec_is_final}

-- The stream refuses every entry of the cycle, and the service runs.
abbrev pub IsOutage : Weather → Type 0
IsOutage w = (i : ℕ) → (w.stopped i ≡ false) × (erreur : Text) × (w.outcome i ≡ refused erreur)

-- The row waits, was not sent, and was attempted `n` times at least; the table fits one batch.
abbrev Waits : ℕ → ℕ → ℕ → Relay → Type 0
Waits size id n s =
    (r : Row) × IsUnsent id r s
    × (r.id ≡ id)
    × (r.statut ≡ en_attente)
    × (n ≤ r.tentatives)
    × (length s.rows ≤ size)

length-map : (f : Row → Row) (rows : List Row) → length (map f rows) ≡ length rows
length-map f [] = refl
length-map f (x ∷ xs) = ap suc (length-map f xs)

abbrev failing : ℕ → Text → Row → Row
failing id erreur x =
    if x.id == id
    then record x { tentatives = x.tentatives + 1; derniere_erreur = some (slice 2000 erreur) }
    else x

Waits-fail :
    (size id n : ℕ) (b : Row) (erreur : Text) (s : Relay)
    → Waits size id n s
    → Waits size id n (fail b erreur s)
unfolding mark_failed_attempt
Waits-fail size id n b erreur s (r, k, q, waits, tried, fits) = (
  failing b.id erreur r,
  map-IsUnsent (failing b.id erreur) id r s (λ x. ground arith) k,
  ground arith,
  ground arith,
  ground arith,
  rw (length-map (failing b.id erreur) s.rows) fits,
)

Waits-hit :
    (size id n : ℕ) (b : Row) (erreur : Text) (s : Relay)
    → b.id ≡ id
    → Waits size id n s
    → Waits size id (suc n) (fail b erreur s)
unfolding mark_failed_attempt
Waits-hit size id n b erreur s at (r, k, q, waits, tried, fits) = (
  failing b.id erreur r,
  map-IsUnsent (failing b.id erreur) id r s (λ x. ground arith) k,
  ground arith,
  ground arith,
  ground arith,
  rw (length-map (failing b.id erreur) s.rows) fits,
)

relay_batch_refused :
    (w : Weather) (r : Row) (rs : List Row) (s : Relay) (erreur : Text)
    → w.stopped r.id ≡ false
    → w.outcome r.id ≡ refused erreur
    → relay_batch w (r ∷ rs) s ≡ relay_batch w rs (fail r erreur s)
unfolding relay_batch relay_one
relay_batch_refused w r rs s erreur on e = rw on (rw e refl)

Waits-batch :
    (size id n : ℕ) (w : Weather) (rs : List Row) (s : Relay)
    → IsOutage w
    → Waits size id n s
    → Waits size id n (relay_batch w rs s)
unfolding relay_batch
Waits-batch size id n w [] s out k = k
Waits-batch size id n w (r ∷ rs) s out k =
    let (on, erreur, e) = out r.id in
    rw (relay_batch_refused w r rs s erreur on e)
      (Waits-batch size id n w rs (fail r erreur s) out (Waits-fail size id n r erreur s k))

Waits-batch_hit :
    (size id n : ℕ) (w : Weather) (b : Row) (rs : List Row) (s : Relay)
    → IsOutage w
    → b.id ≡ id
    → Member b rs
    → Waits size id n s
    → Waits size id (suc n) (relay_batch w rs s)
unfolding relay_batch
Waits-batch_hit size id n w b [] s out at m k = absurd m
Waits-batch_hit size id n w b (r ∷ rs) s out at (inl e) k =
    let (on, erreur, f) = out r.id in
    rw (relay_batch_refused w r rs s erreur on f) (
      Waits-batch size id (suc n) w rs (fail r erreur s) out
        (Waits-hit size id n r erreur s (ap row_key (sym e) ∙ at) k))
Waits-batch_hit size id n w b (r ∷ rs) s out at (inr m) k =
    let (on, erreur, f) = out r.id in
    rw (relay_batch_refused w r rs s erreur on f) (
      Waits-batch_hit size id n w b rs (fail r erreur s) out at m
        (Waits-fail size id n r erreur s k))

Member-insert_by_date :
    (b r : Row) (rows : List Row) → (b ≡ r) ⊎ Member b rows → Member b (insert_by_date r rows)
Member-insert_by_date b r [] m = m
Member-insert_by_date b r (x ∷ xs) m = ground (arith, Member-insert_by_date b r xs)

Member-sort : (b : Row) (rows : List Row) → Member b rows → Member b (sort_by_date rows)
Member-sort b [] m = m
Member-sort b (r ∷ rs) (inl e) = Member-insert_by_date b r (sort_by_date rs) (inl e)
Member-sort b (r ∷ rs) (inr m) =
    Member-insert_by_date b r (sort_by_date rs) (inr (Member-sort b rs m))

length-insert_by_date :
    (r : Row) (rows : List Row) → length (insert_by_date r rows) ≡ suc (length rows)
length-insert_by_date r [] = refl
length-insert_by_date r (x ∷ xs) = ground (arith, length-insert_by_date r xs)

length-sort : (rows : List Row) → length (sort_by_date rows) ≡ length rows
length-sort [] = refl
length-sort (r ∷ rs) = length-insert_by_date r (sort_by_date rs) ∙ ap suc (length-sort rs)

length-filter : (p : Row → Bool) (rows : List Row) → length (filter p rows) ≤ length rows
length-filter p [] = ground arith
length-filter p (x ∷ xs) = ground (arith, length-filter p xs)

take_all : (n : ℕ) (rows : List Row) → length rows ≤ n → take n rows ≡ rows
take_all zero [] h = refl
take_all zero (x ∷ xs) h = ground arith
take_all (suc n) [] h = refl
take_all (suc n) (x ∷ xs) h = ap (λ ys. x ∷ ys) (take_all n xs (ground arith))

Member-batch :
    (size : ℕ) (b : Row) (rows : List Row)
    → length rows ≤ size
    → Member b rows
    → is_en_attente b.statut ≡ true
    → Member b (find_pending_batch size rows)
unfolding find_pending_batch
Member-batch size b rows fits m waits =
    let waiting = filter (λ r. is_en_attente r.statut) rows in
    rw
      (take_all size (sort_by_date waiting) (
        rw (length-sort waiting)
          (let l = length-filter (λ r. is_en_attente r.statut) rows in ground arith)))
      (Member-sort b waiting (Member-filter (λ r. is_en_attente r.statut) b rows m waits))

Waits-cycle :
    (size id n : ℕ) (w : Weather) (s : Relay)
    → IsOutage w
    → Waits size id n s
    → Waits size id (suc n) (run_cycle size w s)
unfolding run_cycle
Waits-cycle size id n w s out (r, k, q, waits, tried, fits) =
    let m = (find_by_key-Member row_key id r s.rows k.found).0 in
    Waits-batch_hit size id n w r (find_pending_batch size s.rows) s out q
      (Member-batch size r s.rows fits m (rw waits refl)) (r, k, q, waits, tried, fits)

Waits-cycles :
    (size id n : ℕ) (ws : List Weather) (es : List Step) (s : Relay)
    → All IsOutage ws
    → Waits size id n s
    → (s' : Relay) × (perform_all (map (cycled size) ws ++ es) s ≡ perform_all es s')
      × Waits size id (n + length ws) s'
unfolding perform_all
Waits-cycles size id n [] es s out k = (s, refl, subst (λ m. Waits size id m s) (ground arith) k)
Waits-cycles size id n (w ∷ ws) es s out k =
    let (s', e, k') =
      Waits-cycles size id (suc n) ws es (run_cycle size w s) out.1
        (Waits-cycle size id n w s out.0 k) in
    (s', e, subst (λ m. Waits size id m s') (ground arith) k')

-- If a waiting row was not sent, the table fits one batch, the stream refuses everything for a number
-- of cycles, the attempts of the row and these cycles reach the maximum, and the sweep runs then,
-- then the row has failed for good, and whatever happens afterwards it stays so and the stream never
-- gets an entry of it.
pub outage_loses_event :
    (size max id : ℕ) (ws : List Weather) (es : List Step) (r : Row) (s : Relay)
    → IsUnsent id r s
    → r.statut ≡ en_attente
    → length s.rows ≤ size
    → max ≤ r.tentatives + length ws
    → All IsOutage ws
    → let s' = perform_all (map (cycled size) ws ++ (swept max ∷ es)) s in
      (final : Row) × (final.statut ≡ echec) × IsUnsent id final s'
unfolding perform_all sweep_permanent_failures mark_permanently_failed
outage_loses_event size max id ws es r s k waits fits enough out =
    let q = (find_by_key-Member row_key id r s.rows k.found).1 in
    let (s', e, (r', k', q', waits', tried, _)) =
      Waits-cycles size id r.tentatives ws (swept max ∷ es) s out
        (r, k, q, waits, ground arith, fits) in
    let swept_row =
      map-IsUnsent (λ x. if is_exhausted max x then record x { statut = echec } else x) id r' s'
        (λ x. ground arith) k' in
    let over : is_exhausted max r' ≡ true = ground arith in
    let final : Row = record r' { statut = echec } in
    (
      final,
      refl,
      rw e (
          echec_is_final es id final (sweep_permanent_failures max s') q' refl
            (rw over at swept_row)),
    )
