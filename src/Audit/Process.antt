-- ===== src/Audit/Process.antt =====
-- What is done with an event of the stream
-- (src/audit/application/use-cases/process-stream-event.use-case.ts and dead-letter.use-cases.ts).
use core_kernel.Prelude.{
  ℕ, Bool, true, false, ◌||◌, Option, none, some, [], ◌∷◌, Text, codes, is_some, find_by_key,
  Action, pure, gets, or_raise, raise_if, ◌>>=◌, ◌>>◌,
}
use core_kernel.Outbox.Table.{slice}
use core_kernel.Audit.Json.{Value, Entries, object, string, entry, no_entry}
use core_kernel.Audit.Redaction.{redact_sensitive_fields}
use core_kernel.Audit.Trail.{
  AuditEvenement, EvenementEnEchec, AuditError, invalid_stream_message, dead_letter_entry_not_found,
  dead_letter_entry_already_replayed, invalid_date, Store, Database, exists_by_evenement_id,
  save_audit, save_dead, mark_replayed, dead_key,
}

-- What the language's library does: `toLowerCase`, `JSON.parse` (`none` when it throws),
-- `JSON.stringify`, `new Date(text)` (`none` is an invalid date), `toISOString` and
-- the decimal text of a number.
pub record Platform : Type 0 where
  pub lower : Text → Text
  pub parse : Text → Option Value
  pub stringify : Value → Text
  pub parse_date : Text → Option ℕ
  pub to_iso : ℕ → Text
  pub decimal : ℕ → Text

pub record StreamMessage : Type 0 where
  pub outbox_id : Text
  pub type_name : Text
  pub gsg_org_id : Option Text
  pub horodatage : Text
  pub produit_source : Text
  pub charge_utile_brute : Text

abbrev pub is_empty : Text → Bool
is_empty [] = true
is_empty (_ ∷ _) = false

-- What is parsed must be an object.
abbrev pub as_object : Option Value → Option Entries
as_object (some (object fs)) = some fs
as_object _ = none

abbrev pub new_audit : Platform → ℕ → ℕ → StreamMessage → Entries → AuditEvenement
new_audit p id now m charge_utile = record {
  id = id;
  evenement_id = m.outbox_id;
  type_name = m.type_name;
  gsg_org_id = m.gsg_org_id;
  produit_source = m.produit_source;
  horodatage = p.parse_date m.horodatage;
  charge_utile = redact_sensitive_fields p.lower charge_utile;
  traite_le = now;
}

abbrev pub record_event :
    Platform → Database → ℕ → ℕ → StreamMessage → Bool → Action Store AuditError (Unit {0})
record_event p db id now m true = pure tt
record_event p db id now m false = do
  charge_utile ← or_raise (as_object (p.parse m.charge_utile_brute)) invalid_stream_message
  save_audit db (new_audit p id now m charge_utile)

-- `ProcessStreamEventUseCase.execute`
unfoldable pub process_stream_event :
    Platform → Database → ℕ → ℕ → StreamMessage → Action Store AuditError (Unit {0})
process_stream_event p db id now m = do
  raise_if (is_empty m.outbox_id || is_empty m.type_name) invalid_stream_message
  deja_traite ← gets (λ s. exists_by_evenement_id m.outbox_id s.trail)
  record_event p db id now m deja_traite

-- What is not an object is kept as a text.
abbrev pub or_raw : Text → Option Entries → Entries
or_raw brute (some fs) = fs
or_raw brute none = entry (codes "valeurBrute") (string brute) no_entry

abbrev pub new_dead : Platform → ℕ → ℕ → StreamMessage → ℕ → Text → EvenementEnEchec
new_dead p id now m tentatives derniere_erreur = record {
  id = id;
  evenement_id = m.outbox_id;
  type_name = m.type_name;
  gsg_org_id = m.gsg_org_id;
  produit_source = m.produit_source;
  horodatage = p.parse_date m.horodatage;
  charge_utile =
      redact_sensitive_fields p.lower
        (or_raw m.charge_utile_brute (as_object (p.parse m.charge_utile_brute)));
  tentatives = tentatives;
  derniere_erreur = slice 2000 derniere_erreur;
  mis_en_echec_le = now;
  rejoue_le = none;
}

-- `MoveToDeadLetterUseCase.execute`
unfoldable pub move_to_dead_letter :
    Platform → Database → ℕ → ℕ → StreamMessage → ℕ → Text → Action Store AuditError (Unit {0})
move_to_dead_letter p db id now m tentatives derniere_erreur =
    save_dead db (new_dead p id now m tentatives derniere_erreur)

abbrev pub message_of : Platform → EvenementEnEchec → Text → StreamMessage
message_of p d horodatage = record {
  outbox_id = d.evenement_id;
  type_name = d.type_name;
  gsg_org_id = d.gsg_org_id;
  horodatage = horodatage;
  produit_source = d.produit_source;
  charge_utile_brute = p.stringify d.charge_utile;
}

abbrev pub iso_text : Platform → Option ℕ → Option Text
iso_text p none = none
iso_text p (some t) = some (p.to_iso t)

-- `ReplayDeadLetterUseCase.execute`: `uuid` is the identifier that the audit event takes.
unfoldable pub replay_dead_letter :
    Platform → Database → ℕ → ℕ → ℕ → Action Store AuditError (Unit {0})
unfolding process_stream_event
replay_dead_letter p db uuid now id = do
  found ← gets (λ s. find_by_key dead_key id s.dead)
  entree ← or_raise found dead_letter_entry_not_found
  raise_if (is_some entree.rejoue_le) dead_letter_entry_already_replayed
  horodatage ← or_raise (iso_text p entree.horodatage) invalid_date
  process_stream_event p db uuid now (message_of p entree horodatage)
      >> save_dead db (mark_replayed now entree)
