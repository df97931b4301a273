-- ===== src/Audit/Tests.antt =====
-- The audit trail on small inputs.
use core_kernel.Prelude.{
  ◌≡◌, ◌⊎◌, refl, true, false, none, some, [], ◌∷◌, codes, text_eq, arith, ltb, if◌then◌else◌,
  length, ◌≤◌, ok,
}
use core_kernel.Outbox.Table.{Row, en_attente}
use core_kernel.Outbox.Wire.{wire_fields}
use core_kernel.Audit.Json.{Entries, object, string, entry, no_entry, null, nesting}
use core_kernel.Audit.Redaction.{is_sensitive, is_proto, redact_value, redact_sensitive_fields}
use core_kernel.Audit.Clean.{IsClean, redact_sensitive_fields-IsClean}
use core_kernel.Audit.Trail.{
  AuditEvenement, EvenementEnEchec, Store, Database, exists_by_evenement_id,
}
use core_kernel.Audit.Process.{Platform, StreamMessage, is_empty, new_dead, process_stream_event}
use core_kernel.Audit.Journal.{journal, note_if_ok, payload, process_stream_event_refines}
use core_kernel.Audit.Consumer.{
  World, Entry, Consumer, delivered, cycled, replayed, parse_fields, handle_message,
  run_claim_cycle, perform_all,
}
use core_kernel.Audit.Sound.{IsSound}
use core_kernel.Audit.Runs.{perform_all-IsSound}
use core_kernel.Audit.Wire.{message_of_row, parse_fields-wire_fields}
use core_kernel.Audit.Kept.{message, handle_message_acks_recorded, entry_without_id_lost}
use core_kernel.Audit.Query.{
  Query, Reader, AuditTrailPage, query_trail, query_audit_trail, is_selected,
}
use core_kernel.Audit.Scope.{query_audit_trail_bounded}

-- A payload with a secret, and what is printed for it.
abbrev secret_fields : Entries
secret_fields =
    entry (codes "id") (string (codes "u1"))
      (entry (codes "otp") (string (codes "123456")) no_entry)

-- A platform that knows one payload, whose texts are in lower case.
abbrev platform : Platform
platform = record {
  lower = λ t. t;
  parse = λ t. some (object secret_fields);
  stringify = λ v. codes "{}";
  parse_date = λ t. some 7;
  to_iso = λ n. codes "1970";
  decimal = λ n. codes "5";
}

abbrev open_database : Database
open_database = record { takes_audit = λ r. true; takes_dead = λ d. true }

abbrev uuid_database : Database
uuid_database = record { takes_audit = λ r. true; takes_dead = λ d. ltb 0 (length d.evenement_id) }

abbrev empty_store : Store
empty_store = record { trail = []; dead = [] }

abbrev fresh : Consumer
fresh = record { store = empty_store; acked = [] }

abbrev event_message : StreamMessage
event_message = record {
  outbox_id = codes "e1";
  type_name = codes "user.created";
  gsg_org_id = none;
  horodatage = codes "1970";
  produit_source = codes "gsg-id";
  charge_utile_brute = codes "{}";
}

abbrev good_entry : Entry
good_entry = record {
  id = 1;
  fields = codes "outboxId" ∷ codes "e1" ∷ codes "type" ∷ codes "user.created" ∷ [];
}

abbrev nameless_entry : Entry
nameless_entry = record { id = 2; fields = codes "type" ∷ codes "user.created" ∷ [] }

abbrev calm : Entry → World
calm e = record {
  database = uuid_database;
  uuid = 40;
  now = 8;
  acks = true;
  claimed = some (e ∷ []);
  found = some (e ∷ []);
}

redact_sensitive_fields-IsClean_example :
    IsClean (λ t. t) (redact_sensitive_fields (λ t. t) secret_fields)
    × (nesting (redact_sensitive_fields (λ t. t) secret_fields) ≤ 6)
redact_sensitive_fields-IsClean_example = redact_sensitive_fields-IsClean (λ t. t) secret_fields

-- The code of the payload is replaced by the mark.
secret_redacted :
    redact_sensitive_fields (λ t. t) secret_fields
    ≡ object (
        entry
          (codes "id")
          (string (codes "u1"))
          (entry (codes "otp") (string (codes "[REDACTED]")) no_entry))
unfolding redact_sensitive_fields redact_value is_sensitive is_proto text_eq
secret_redacted = refl

process_stream_event_refines_example :
    (journal
        (process_stream_event platform open_database 40 8 event_message empty_store).1.trail
        (codes "e1")
      ≡ note_if_ok
          (process_stream_event platform open_database 40 8 event_message empty_store).0
          (codes "e1")
          (payload platform event_message)
          (journal [])
          (codes "e1"))
    × ((process_stream_event platform open_database 40 8 event_message empty_store).1.dead ≡ [])
process_stream_event_refines_example =
    process_stream_event_refines platform open_database 40 8 event_message empty_store (codes "e1")

empty-IsSound : IsSound (λ t. t) empty_store
empty-IsSound = record { distinct = tt; audited = tt; failed = tt }

perform_all-IsSound_example :
    IsSound
      (λ t. t)
      (perform_all platform
        (delivered (calm good_entry) good_entry
          ∷ delivered (calm good_entry) good_entry
          ∷ cycled 5 (λ i. calm nameless_entry) (record { id = 2; delivery_count = 6 } ∷ [])
          ∷ replayed (calm good_entry) 40
          ∷ [])
        fresh).store
perform_all-IsSound_example =
    perform_all-IsSound platform
      (delivered (calm good_entry) good_entry
        ∷ delivered (calm good_entry) good_entry
        ∷ cycled 5 (λ i. calm nameless_entry) (record { id = 2; delivery_count = 6 } ∷ [])
        ∷ replayed (calm good_entry) 40
        ∷ [])
      fresh empty-IsSound

abbrev outbox_row : Row
outbox_row = record {
  id = 3;
  type_name = codes "org.created";
  gsg_org_id = none;
  horodatage = 5;
  produit_source = codes "gsg-org";
  charge_utile = codes "{}";
  statut = en_attente;
  tentatives = 0;
  derniere_erreur = none;
  cree_le = 5;
  publie_le = none;
}

parse_fields-wire_fields_example :
    parse_fields (codes "now") (wire_fields (λ i. codes "uuid") (λ t. codes "1970") outbox_row)
    ≡ message_of_row (λ i. codes "uuid") (λ t. codes "1970") outbox_row
parse_fields-wire_fields_example =
    parse_fields-wire_fields (λ i. codes "uuid") (λ t. codes "1970") (codes "now") outbox_row
      (λ i. refl)

handle_message_acks_recorded_example :
    ((handle_message platform (calm good_entry) good_entry fresh).acked ≡ [])
    ⊎ (exists_by_evenement_id
          (message platform (calm good_entry) good_entry).outbox_id
          (handle_message platform (calm good_entry) good_entry fresh).store.trail
        ≡ true)
handle_message_acks_recorded_example =
    handle_message_acks_recorded platform (calm good_entry) good_entry fresh

nameless_empty : (message platform (calm nameless_entry) nameless_entry).outbox_id ≡ []
unfolding parse_fields text_eq
nameless_empty = refl

refuses_nameless :
    (d : EvenementEnEchec) → d.evenement_id ≡ [] → ltb 0 (length d.evenement_id) ≡ false
refuses_nameless d h = rw h refl

entry_without_id_lost_example :
    (handle_message platform (calm nameless_entry) nameless_entry fresh ≡ fresh)
    × (run_claim_cycle platform 5
          (λ i. calm nameless_entry)
          (record { id = 2; delivery_count = 6 } ∷ [])
          fresh
        ≡ record fresh { acked = 2 ∷ [] })
entry_without_id_lost_example =
    entry_without_id_lost platform 5 (λ i. calm nameless_entry)
      (record { id = 2; delivery_count = 6 }) [] nameless_entry fresh nameless_empty (ground arith)
      refl refl refuses_nameless

-- A platform that prints the redacted payload as the empty text, and reads it back.
abbrev printer : Platform
printer = record platform {
  stringify = λ v. [];
  parse = λ t.
      if is_empty t
      then some (redact_sensitive_fields (λ k. k) secret_fields)
      else some (object secret_fields);
}

abbrev failed_store : Store
failed_store = record { trail = []; dead = new_dead printer 40 8 event_message 6 (codes "KO") ∷ [] }

abbrev pub event_row : AuditEvenement
event_row = record {
  id = 40;
  evenement_id = codes "e1";
  type_name = codes "user.created";
  gsg_org_id = some (codes "o1");
  produit_source = codes "gsg-id";
  horodatage = some 7;
  charge_utile = null;
  traite_le = 8;
}

abbrev owner : Reader
owner = record { roles = codes "org.owner" ∷ []; gsg_org_ids = codes "o1" ∷ [] }

abbrev pub question : Query
question = record {
  gsg_org_id = some (codes "o1");
  type_name = none;
  depuis = none;
  jusqua = none;
  page = 1;
  taille_par_page = 500;
}

abbrev pub answer : AuditTrailPage
answer = record { elements = event_row ∷ []; total = 1; page = 1; taille_par_page = 200 }

owner_answered : query_audit_trail text_eq owner question (event_row ∷ []) ≡ ok answer
unfolding query_audit_trail query_trail is_selected text_eq
owner_answered = refl

query_audit_trail_bounded_example : length (event_row ∷ []) ≤ 200
query_audit_trail_bounded_example =
    query_audit_trail_bounded text_eq owner question (event_row ∷ []) answer owner_answered
