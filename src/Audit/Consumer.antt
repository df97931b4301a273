-- ===== src/Audit/Consumer.antt =====
-- The consumer of the stream (src/audit/infrastructure/messaging/redis-streams-consumer.service.ts).
-- What the stream server answers is an argument; an entry of the stream is known by a number.
use core_kernel.Prelude.{
  ℕ, Bool, true, false, Option, none, some, List, [], ◌∷◌, Text, codes, ◌++◌, text_eq, or_else,
  if◌then◌else◌, Result, ok, err,
}
use core_kernel.Common.Transaction.{post, intercept}
use core_kernel.Audit.Trail.{AuditError, Store, Database, should_move_to_dead_letter}
use core_kernel.Audit.Process.{
  Platform, StreamMessage, process_stream_event, move_to_dead_letter, replay_dead_letter,
}

-- `map.get(cle)` after the fields were put in a map: the last value of a key counts, and a key
-- without a value has none.
abbrev pub get_from : Option Text → Text → List Text → Option Text
get_from found cle [] = found
get_from found cle (k ∷ []) = if text_eq k cle then none else found
get_from found cle (k ∷ v ∷ rest) = get_from (if text_eq k cle then some v else found) cle rest

abbrev pub get : Text → List Text → Option Text
get = get_from none

-- `value || null`
abbrev pub non_empty : Option Text → Option Text
non_empty (some (c ∷ s)) = some (c ∷ s)
non_empty _ = none

unfoldable pub parse_fields : Text → List Text → StreamMessage
parse_fields now_iso fields = record {
  outbox_id = or_else (get (codes "outboxId") fields) [];
  type_name = or_else (get (codes "type") fields) [];
  gsg_org_id = non_empty (get (codes "gsgOrgId") fields);
  horodatage = or_else (get (codes "horodatage") fields) now_iso;
  produit_source = or_else (get (codes "produitSource") fields) (codes "inconnu");
  charge_utile_brute = or_else (get (codes "chargeUtile") fields) (codes "{}");
}

pub record Entry : Type 0 where
  pub id : ℕ
  pub fields : List Text

-- What the database and the stream server do while one entry is handled. `uuid` and
-- `now` are those that the use cases take for the entry; `none` is an error of the server.
pub record World : Type 0 where
  pub database : Database
  pub uuid : ℕ
  pub now : ℕ
  pub acks : Bool
  pub claimed : Option (List Entry)
  pub found : Option (List Entry)

-- The tables, and the entries that were acknowledged.
pub record Consumer : Type 0 where
  pub store : Store
  pub acked : List ℕ

-- `xack`
abbrev pub ack : Bool → ℕ → Consumer → Bool × Consumer
ack true id s = (true, record s { acked = id ∷ s.acked })
ack false id s = (false, s)

abbrev pub process :
    Platform → World → StreamMessage → Consumer → Result AuditError (Unit {0}) × Consumer
process p w m s =
    let (r, store) = process_stream_event p w.database w.uuid w.now m s.store in
    (r, record s { store = store })

abbrev pub ack_processed : World → ℕ → Result AuditError (Unit {0}) × Consumer → Consumer
ack_processed w id (ok _, s) = (ack w.acks id s).1
ack_processed w id (err _, s) = s

-- `handleMessage`: an entry that cannot be processed is not acknowledged.
unfoldable pub handle_message : Platform → World → Entry → Consumer → Consumer
handle_message p w e s =
    ack_processed w e.id (process p w (parse_fields (p.to_iso w.now) e.fields) s)

unfoldable pub max_deliveries_text : Platform → ℕ → Text
max_deliveries_text p delivery_count =
    codes "Nombre maximal de tentatives de livraison dépassé ("
    ++ p.decimal delivery_count
    ++ codes ")."

-- Whether an error was raised.
abbrev pub told : Result AuditError (Unit {0}) → Consumer → Bool × Consumer
told (ok _) s = (true, s)
told (err _) s = (false, s)

abbrev pub move : Platform → World → ℕ → List Entry → Consumer → Bool × Consumer
move p w delivery_count [] s = (true, s)
move p w delivery_count (e ∷ _) s =
    let m = parse_fields (p.to_iso w.now) e.fields in
    let (r, store) =
      move_to_dead_letter p w.database w.uuid w.now m delivery_count
        (max_deliveries_text p delivery_count) s.store in
    told r (record s { store = store })

abbrev pub move_found : Platform → World → ℕ → Option (List Entry) → Consumer → Bool × Consumer
move_found p w delivery_count none s = (false, s)
move_found p w delivery_count (some es) s = move p w delivery_count es s

abbrev pub both : Bool → Bool → Bool
both true b = b
both false _ = false

-- `moveEntryToDeadLetter`, and whether it ends without an error: the entry is acknowledged in the
-- `finally`, whether or not it was kept.
unfoldable pub move_entry_to_dead_letter : Platform → World → ℕ → ℕ → Consumer → Bool × Consumer
move_entry_to_dead_letter p w id delivery_count s =
    let (kept, s₁) = move_found p w delivery_count w.found s in
    let (done, s₂) = ack w.acks id s₁ in (both kept done, s₂)

unfoldable pub handle_all : Platform → World → List Entry → Consumer → Consumer
unfolding handle_message
handle_all p w [] s = s
handle_all p w (e ∷ es) s = handle_all p w es (handle_message p w e s)

abbrev pub handle_claimed : Platform → World → Option (List Entry) → Consumer → Bool × Consumer
handle_claimed p w none s = (false, s)
handle_claimed p w (some es) s = (true, handle_all p w es s)

-- The body of the loop of `runClaimCycle` for one pending entry, and whether the loop goes on.
unfoldable pub claim_one : Platform → ℕ → World → ℕ → ℕ → Consumer → Bool × Consumer
unfolding move_entry_to_dead_letter handle_all
claim_one p max_deliveries w id delivery_count s =
    let moved = move_entry_to_dead_letter p w id delivery_count s in
    let handled = handle_claimed p w w.claimed s in
    if should_move_to_dead_letter delivery_count max_deliveries then moved else handled

pub record Pending : Type 0 where
  pub id : ℕ
  pub delivery_count : ℕ

-- `runClaimCycle` for what `xpending` answers: an error ends the cycle.
unfoldable pub run_claim_cycle : Platform → ℕ → (ℕ → World) → List Pending → Consumer → Consumer
unfolding claim_one
run_claim_cycle p max_deliveries w [] s = s
run_claim_cycle p max_deliveries w (q ∷ qs) s =
    let (goes_on, s') = claim_one p max_deliveries (w q.id) q.id q.delivery_count s in
    let rest = run_claim_cycle p max_deliveries w qs s' in if goes_on then rest else s'

-- What happens to the audit trail: an entry is read, a cycle claims what waits, an operator replays.
pub data Step : Type 0 where
  delivered : World → Entry → Step
  cycled : ℕ → (ℕ → World) → List Pending → Step
  replayed : World → ℕ → Step

unfoldable pub perform : Platform → Step → Consumer → Consumer
unfolding handle_message run_claim_cycle
perform p (delivered w e) s = handle_message p w e s
perform p (cycled max_deliveries w qs) s = run_claim_cycle p max_deliveries w qs s
perform p (replayed w id) s = record s {
  store = (intercept post (replay_dead_letter p w.database w.uuid w.now id) s.store).1;
}

unfoldable pub perform_all : Platform → List Step → Consumer → Consumer
unfolding perform
perform_all p [] s = s
perform_all p (x ∷ xs) s = perform_all p xs (perform p x s)
