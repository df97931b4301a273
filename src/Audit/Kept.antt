-- ===== src/Audit/Kept.antt =====
-- When an entry of the stream is acknowledged.
use core_kernel.Prelude.{
  ℕ, ◌≡◌, refl, ◌⊎◌, inl, inr, Bool, true, false, some, List, [], ◌∷◌, text_eq_iff, arith,
  find_by_key, find_by_key-save, ==_refl, ◌<◌,
}
use core_kernel.Audit.Trail.{
  Store, AuditEvenement, EvenementEnEchec, dead_key, exists_by_evenement_id, save_dead,
  should_move_to_dead_letter,
}
use core_kernel.Audit.Process.{
  Platform, StreamMessage, new_audit, new_dead, process_stream_event, move_to_dead_letter,
}
use core_kernel.Audit.Outcomes.{process_cases}
use core_kernel.Audit.Consumer.{
  World, Entry, Pending, Consumer, parse_fields, max_deliveries_text, ack, ack_processed,
  handle_message, move_entry_to_dead_letter, claim_one, run_claim_cycle,
}

exists-head :
    (r : AuditEvenement) (rs : List AuditEvenement)
    → exists_by_evenement_id r.evenement_id (r ∷ rs) ≡ true
unfolding exists_by_evenement_id
exists-head r rs = let q = (text_eq_iff r.evenement_id r.evenement_id).1 refl in rw q refl

abbrev pub message : Platform → World → Entry → StreamMessage
message p w e = parse_fields (p.to_iso w.now) e.fields

should_move-true : (max n : ℕ) → max < n → should_move_to_dead_letter n max ≡ true
unfolding should_move_to_dead_letter
should_move-true max n h = ground arith

module _ (p : Platform) (w : World) (e : Entry) (s : Consumer) where
  abbrev IsKept : Consumer → Type 0
  IsKept s' =
      (s'.acked ≡ s.acked)
      ⊎ (exists_by_evenement_id (message p w e).outbox_id s'.store.trail ≡ true)

  acked-IsKept :
      (b : Bool) (s' : Store)
      → exists_by_evenement_id (message p w e).outbox_id s'.trail ≡ true
      → IsKept (ack b e.id (record s { store = s' })).1
  acked-IsKept true s' h = inr h
  acked-IsKept false s' h = inl refl

  -- An entry that is handled is acknowledged only if its event stands in the audit trail.
  pub handle_message_acks_recorded :
      ((handle_message p w e s).acked ≡ s.acked)
      ⊎ (exists_by_evenement_id (message p w e).outbox_id (handle_message p w e s).store.trail
          ≡ true)
  unfolding handle_message
  handle_message_acks_recorded =
      process_cases p w.database w.uuid w.now (message p w e) s.store
        (λ (r, s'). IsKept (ack_processed w e.id (r, record s { store = s' }))) (λ _. inl refl)
        (λ h. acked-IsKept w.acks s.store h)
        (λ fs _ _.
          acked-IsKept w.acks _
            (exists-head (new_audit p w.uuid w.now (message p w e) fs) s.store.trail))

ack-store : (b : Bool) (id : ℕ) (s : Consumer) → (ack b id s).1.store ≡ s.store
ack-store true id s = refl
ack-store false id s = refl

-- An entry that was delivered too often goes to the table of failures, if the server finds it there
-- and the database takes the row: the row holds the entry's event.
pub exhausted_entry_kept :
    (p : Platform) (max n : ℕ) (w : World) (e : Entry) (s : Consumer)
    → max < n
    → w.found ≡ some (e ∷ [])
    → w.database.takes_dead (new_dead p w.uuid w.now (message p w e) n (max_deliveries_text p n))
      ≡ true
    → find_by_key dead_key w.uuid (claim_one p max w e.id n s).1.store.dead
      ≡ some (new_dead p w.uuid w.now (message p w e) n (max_deliveries_text p n))
unfolding claim_one move_entry_to_dead_letter move_to_dead_letter save_dead
exhausted_entry_kept p max n w e s lt found takes =
    let k = should_move-true max n lt in
    let f =
      find_by_key-save dead_key w.uuid
        (new_dead p w.uuid w.now (message p w e) n (max_deliveries_text p n)) s.store.dead in
    simp (k, found, takes, ack-store, f, ==_refl w.uuid)

-- An entry without an event's identifier, where the table of failures refuses a row without one (its
-- column is of type `uuid`): it is never processed; and the first claim cycle that meets it after too
-- many deliveries, which the server finds and lets acknowledge, acknowledges it, writes nothing, and
-- leaves out the entries that come after it.
pub entry_without_id_lost :
    (p : Platform) (max : ℕ) (w : ℕ → World) (q : Pending) (qs : List Pending) (e : Entry)
    (s : Consumer)
    → (message p (w q.id) e).outbox_id ≡ []
    → max < q.delivery_count
    → (w q.id).found ≡ some (e ∷ [])
    → (w q.id).acks ≡ true
    → ((d : EvenementEnEchec) → d.evenement_id ≡ [] → (w q.id).database.takes_dead d ≡ false)
    → (handle_message p (w q.id) e s ≡ s)
      × (run_claim_cycle p max w (q ∷ qs) s ≡ record s { acked = q.id ∷ s.acked })
unfolding run_claim_cycle claim_one move_entry_to_dead_letter move_to_dead_letter save_dead
    handle_message process_stream_event
entry_without_id_lost p max w q qs e s empty lt found acks refuses = (
  simp (empty),
  let k = should_move-true max q.delivery_count lt in
      let r =
        refuses
          (new_dead p (w q.id).uuid (w q.id).now (message p (w q.id) e) q.delivery_count
            (max_deliveries_text p q.delivery_count))
          empty in
      simp (k, found, acks, r),
)
