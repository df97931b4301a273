-- ===== src/Audit/Runs.antt =====
-- What holds of the audit trail after any sequence of deliveries, claim cycles and replays.
use core_kernel.Prelude.{
  ℕ, Bool, true, false, List, [], ◌∷◌, Option, none, some, Result, ok, err, if_cases,
}
use core_kernel.Common.Transaction.{post, intercept}
use core_kernel.Audit.Trail.{AuditError, Store, should_move_to_dead_letter}
use core_kernel.Audit.Process.{Platform, move_to_dead_letter, replay_dead_letter}
use core_kernel.Audit.Sound.{
  IsSound, process-IsSound, move_to_dead_letter-IsSound, replay_dead_letter-IsSound,
}
use core_kernel.Audit.Consumer.{
  World, Entry, Pending, Consumer, Step, delivered, cycled, replayed, perform, perform_all, ack,
  ack_processed, told, process, parse_fields, max_deliveries_text, handle_message, handle_all,
  handle_claimed, move_found, move_entry_to_dead_letter, claim_one, run_claim_cycle,
}

module _ (p : Platform) where
  abbrev Holds : Consumer → Type 0
  Holds s = IsSound p.lower s.store

  ack-Holds : (b : Bool) (id : ℕ) (s : Consumer) → Holds s → Holds (ack b id s).1
  ack-Holds true id s h = h
  ack-Holds false id s h = h

  ack_processed-Holds :
      (w : World) (id : ℕ) (r : Result AuditError (Unit {0})) (s : Consumer)
      → Holds s
      → Holds (ack_processed w id (r, s))
  ack_processed-Holds w id (ok _) s h = ack-Holds w.acks id s h
  ack_processed-Holds w id (err _) s h = h

  handle_message-Holds :
      (w : World) (e : Entry) (s : Consumer) → Holds s → Holds (handle_message p w e s)
  unfolding handle_message
  handle_message-Holds w e s h =
      let m = parse_fields (p.to_iso w.now) e.fields in
      ack_processed-Holds w e.id (process p w m s).0 (process p w m s).1
        (process-IsSound p w.database w.uuid w.now m s.store h)

  handle_all-Holds :
      (w : World) (es : List Entry) (s : Consumer) → Holds s → Holds (handle_all p w es s)
  unfolding handle_all
  handle_all-Holds w [] s h = h
  handle_all-Holds w (e ∷ es) s h =
      handle_all-Holds w es (handle_message p w e s) (handle_message-Holds w e s h)

  handle_claimed-Holds :
      (w : World) (es : Option (List Entry)) (s : Consumer)
      → Holds s
      → Holds (handle_claimed p w es s).1
  handle_claimed-Holds w none s h = h
  handle_claimed-Holds w (some es) s h = handle_all-Holds w es s h

  result-Holds : (r : Result AuditError (Unit {0})) (s : Consumer) → Holds s → Holds (told r s).1
  result-Holds (ok _) s h = h
  result-Holds (err _) s h = h

  move_found-Holds :
      (w : World) (n : ℕ) (es : Option (List Entry)) (s : Consumer)
      → Holds s
      → Holds (move_found p w n es s).1
  move_found-Holds w n none s h = h
  move_found-Holds w n (some []) s h = h
  move_found-Holds w n (some (e ∷ es)) s h =
      let m = parse_fields (p.to_iso w.now) e.fields in
      result-Holds
        (move_to_dead_letter p w.database w.uuid w.now m n (max_deliveries_text p n) s.store).0
        (record s {
          store =
              (move_to_dead_letter p w.database w.uuid w.now m n (max_deliveries_text p n)
                s.store).1;
        })
        (move_to_dead_letter-IsSound p w.database w.uuid w.now m n (max_deliveries_text p n) s.store
          h)

  claim_one-Holds :
      (max : ℕ) (w : World) (id n : ℕ) (s : Consumer) → Holds s → Holds (claim_one p max w id n s).1
  unfolding claim_one move_entry_to_dead_letter
  claim_one-Holds max w id n s h =
      if_cases (λ (r : Bool × Consumer). Holds r.1) (should_move_to_dead_letter n max) _ _
        (λ _. ack-Holds w.acks id (move_found p w n w.found s).1 (move_found-Holds w n w.found s h))
        (λ _. handle_claimed-Holds w w.claimed s h)

  run_claim_cycle-Holds :
      (max : ℕ) (w : ℕ → World) (qs : List Pending) (s : Consumer)
      → Holds s
      → Holds (run_claim_cycle p max w qs s)
  unfolding run_claim_cycle
  run_claim_cycle-Holds max w [] s h = h
  run_claim_cycle-Holds max w (q ∷ qs) s h =
      let k = claim_one-Holds max (w q.id) q.id q.delivery_count s h in
      if_cases Holds (claim_one p max (w q.id) q.id q.delivery_count s).0 _ _
        (λ _. run_claim_cycle-Holds max w qs _ k) (λ _. k)

  settled-Holds :
      (r : Result AuditError (Unit {0}) × Store) (s : Store)
      → IsSound p.lower s
      → IsSound p.lower r.1
      → IsSound p.lower (intercept post (λ _. r) s).1
  settled-Holds (ok _, s') s h k = k
  settled-Holds (err _, s') s h k = h

  perform-Holds : (x : Step) (s : Consumer) → Holds s → Holds (perform p x s)
  unfolding perform
  perform-Holds (delivered w e) s h = handle_message-Holds w e s h
  perform-Holds (cycled max w qs) s h = run_claim_cycle-Holds max w qs s h
  perform-Holds (replayed w id) s h =
      settled-Holds (replay_dead_letter p w.database w.uuid w.now id s.store) s.store h
        (replay_dead_letter-IsSound p w.database w.uuid w.now id s.store h)

-- Whatever entries are delivered, redelivered, claimed or replayed, whatever the database refuses and
-- the stream server answers, in any order: if it held before that no event is recorded twice and that
-- every payload in the trail and in the failures is redacted, it holds after.
pub perform_all-IsSound :
    (p : Platform) (xs : List Step) (s : Consumer)
    → IsSound p.lower s.store
    → IsSound p.lower (perform_all p xs s).store
unfolding perform_all
perform_all-IsSound p [] s h = h
perform_all-IsSound p (x ∷ xs) s h =
    perform_all-IsSound p xs (perform p x s) (perform-Holds p x s h)
