-- ===== src/Outbox/Outage.antt =====
-- What becomes of an event while the stream refuses everything (outbox-relay.service.ts).
use core_kernel.Prelude.{
  ℕ, ◌+◌, ◌≡◌, sym, ap, ◌∙◌, inl, inr, true, false, some, List, [], ◌∷◌, map, arith, Text, ◌==◌,
  ==_iff, if◌then◌else◌, Bool-cases, Member, find_by_key, IsKeyed, Member-find_by_key,
}
use core_kernel.Outbox.Table.{
  Row, publie, echec, row_key, find_pending_batch, mark_published, mark_failed_attempt,
  mark_permanently_failed, is_en_attente, is_exhausted, slice,
}
use core_kernel.Outbox.Relay.{
  Relay, Outcome, relayed, refused, unmarked, unrecorded, Step, published, cycled, swept, relay_one,
  add, fail, run_cycle, sweep_permanent_failures, perform_all,
}
use core_kernel.Outbox.Rows.{
  KeepsId, find-map, map-IsKeyed, insert-find, insert-IsKeyed, batch-Member, append-Member,
}
use core_kernel.Outbox.Delivery.{relay_batch_keeps}

-- The row of this identifier is `r`, and the stream has no entry of it.
pub record IsUnsent (id : ℕ) (r : Row) (s : Relay) : Type 0 where
  pub keyed : IsKeyed row_key s.rows
  pub found : find_by_key row_key id s.rows ≡ some r
  pub unsent : Member id s.stream → ⊥

pub map-IsUnsent :
    (f : Row → Row) (id : ℕ) (r : Row) (s : Relay)
    → KeepsId f
    → IsUnsent id r s
    → IsUnsent id (f r) (record s { rows = map f s.rows })
map-IsUnsent f id r s keeps k = record {
  keyed = map-IsKeyed f s.rows keeps k.keyed;
  found = find-map f id r s.rows keeps k.found;
  unsent = k.unsent;
}

add-IsUnsent :
    (id : ℕ) (r b : Row) (s : Relay)
    → (b.id == id) ≡ false
    → IsUnsent id r s
    → IsUnsent id r (add b s)
add-IsUnsent id r b s other k = record {
  keyed = k.keyed;
  found = k.found;
  unsent = λ m. elim (append-Member id s.stream (b.id ∷ []) m) [
    | inl old ↦ k.unsent old
    | inr new ↦ ground arith
  ];
}

mark_published-IsUnsent :
    (now id : ℕ) (r b : Row) (s : Relay)
    → (b.id == id) ≡ false
    → r.id ≡ id
    → IsUnsent id r s
    → IsUnsent id r (record s { rows = mark_published b.id now s.rows })
unfolding mark_published
mark_published-IsUnsent now id r b s other q k =
    let k' =
      map-IsUnsent
        (λ x. if x.id == b.id then record x { statut = publie; publie_le = some now } else x) id r s
        (λ x. ground arith) k in
    let e : (r.id == b.id) ≡ false = ground arith in rw e at k'

fail-IsUnsent :
    (id : ℕ) (r b : Row) (erreur : Text) (s : Relay)
    → (b.id == id) ≡ false
    → r.id ≡ id
    → IsUnsent id r s
    → IsUnsent id r (fail b erreur s)
unfolding mark_failed_attempt
fail-IsUnsent id r b erreur s other q k =
    let k' =
      map-IsUnsent
        (λ x.
          if x.id == b.id
          then record x {
            tentatives = x.tentatives + 1;
            derniere_erreur = some (slice 2000 erreur);
          }
          else x)
        id r s (λ x. ground arith) k in
    let e : (r.id == b.id) ≡ false = ground arith in rw e at k'

-- An attempt at another row leaves the row and its entries alone.
relay_one-IsUnsent :
    (id now : ℕ) (r b : Row) (o : Outcome) (s : Relay)
    → (b.id == id) ≡ false
    → r.id ≡ id
    → IsUnsent id r s
    → IsUnsent id r (relay_one now b o s).1
unfolding relay_one
relay_one-IsUnsent id now r b relayed s other q k =
    mark_published-IsUnsent now id r b (add b s) other q (add-IsUnsent id r b s other k)
relay_one-IsUnsent id now r b (refused erreur) s other q k = fail-IsUnsent id r b erreur s other q k
relay_one-IsUnsent id now r b (unmarked erreur) s other q k =
    fail-IsUnsent id r b erreur (add b s) other q (add-IsUnsent id r b s other k)
relay_one-IsUnsent id now r b (unrecorded true) s other q k = add-IsUnsent id r b s other k
relay_one-IsUnsent id now r b (unrecorded false) s other q k = k

-- A row that does not wait is in no batch.
batch_without :
    (size id : ℕ) (r b : Row) (s : Relay)
    → is_en_attente r.statut ≡ false
    → IsUnsent id r s
    → Member b (find_pending_batch size s.rows)
    → (b.id == id) ≡ false
batch_without size id r b s settled k m = elim (Bool-cases (b.id == id)) [
  | inr other ↦ other
  | inl same ↦
      let (mb, waits) = batch-Member size b s.rows m in
      let q : b.id ≡ id = (==_iff b.id id).0 same in
      let f : find_by_key row_key id s.rows ≡ some b =
        ap (λ i. find_by_key row_key i s.rows) (sym q)
        ∙ Member-find_by_key row_key b s.rows k.keyed mb in
      let g = k.found in let e : r ≡ b = cc in ground arith
]

-- If a row has failed for good and the stream has no entry of it, then whatever is published,
-- relayed and swept afterwards, the row stays as it is and the stream never gets an entry of it.
pub echec_is_final :
    (es : List Step) (id : ℕ) (r : Row) (s : Relay)
    → r.id ≡ id
    → r.statut ≡ echec
    → IsUnsent id r s
    → IsUnsent id r (perform_all es s)
unfolding perform_all run_cycle sweep_permanent_failures mark_permanently_failed
echec_is_final [] id r s q failed k = k
echec_is_final (published id' e now ∷ es) id r s q failed k =
    echec_is_final es id r _ q failed (record {
      keyed = insert-IsKeyed id' e now s.rows k.keyed;
      found = insert-find id' e now id r s.rows k.found;
      unsent = k.unsent;
    })
echec_is_final (cycled size w ∷ es) id r s q failed k =
    let settled : is_en_attente r.statut ≡ false = ground arith in
    echec_is_final es id r _ q failed (
      relay_batch_keeps (IsUnsent id r) w (find_pending_batch size s.rows)
        (λ b m s'.
          relay_one-IsUnsent id w.now r b (w.outcome b.id) s'
            (batch_without size id r b s settled k m) q)
        s k)
echec_is_final (swept max ∷ es) id r s q failed k =
    let k' =
      map-IsUnsent (λ x. if is_exhausted max x then record x { statut = echec } else x) id r s
        (λ x. ground arith) k in
    let e : is_exhausted max r ≡ false = ground arith in
    echec_is_final es id r _ q failed (rw e at k')
