-- ===== src/Audit/Trail.antt =====
-- The audit events, the events that failed, and their tables (src/audit/domain/entities,
-- src/audit/infrastructure/persistence/typeorm/orm-repositories.ts).
use core_kernel.Prelude.{
  ℕ, Bool, Option, some, List, ◌∷◌, Text, text_eq, ltb, if◌then◌else◌, any, save, Action, ok, err,
}
use core_kernel.Audit.Json.{Value}

-- An invalid date is `none`.
pub record AuditEvenement : Type 0 where
  pub id : ℕ
  pub evenement_id : Text
  pub type_name : Text
  pub gsg_org_id : Option Text
  pub produit_source : Text
  pub horodatage : Option ℕ
  pub charge_utile : Value
  pub traite_le : ℕ

pub record EvenementEnEchec : Type 0 where
  pub id : ℕ
  pub evenement_id : Text
  pub type_name : Text
  pub gsg_org_id : Option Text
  pub produit_source : Text
  pub horodatage : Option ℕ
  pub charge_utile : Value
  pub tentatives : ℕ
  pub derniere_erreur : Text
  pub mis_en_echec_le : ℕ
  pub rejoue_le : Option ℕ

abbrev pub dead_key : EvenementEnEchec → ℕ
dead_key d = d.id

abbrev pub mark_replayed : ℕ → EvenementEnEchec → EvenementEnEchec
mark_replayed now d = record d { rejoue_le = some now }

unfoldable pub should_move_to_dead_letter : ℕ → ℕ → Bool
should_move_to_dead_letter delivery_count max_deliveries = ltb max_deliveries delivery_count

pub data AuditError : Type 0 where
  invalid_stream_message : AuditError
  dead_letter_entry_not_found : AuditError
  dead_letter_entry_already_replayed : AuditError
  invalid_date : AuditError
  database_error : AuditError

-- The two tables; the audit events stand latest first.
pub record Store : Type 0 where
  pub trail : List AuditEvenement
  pub dead : List EvenementEnEchec

-- Which rows the database takes, uniqueness aside.
pub record Database : Type 0 where
  pub takes_audit : AuditEvenement → Bool
  pub takes_dead : EvenementEnEchec → Bool

unfoldable pub exists_by_evenement_id : Text → List AuditEvenement → Bool
exists_by_evenement_id e = any (λ r. text_eq r.evenement_id e)

-- `save` of the audit events: a violated unique constraint is no error. An identifier is drawn
-- once, so it is the constraint on the event that can be violated.
unfoldable pub save_audit : Database → AuditEvenement → Action Store AuditError (Unit {0})
unfolding exists_by_evenement_id
save_audit db a s =
    if exists_by_evenement_id a.evenement_id s.trail
    then (ok tt, s)
    else if db.takes_audit a
    then (ok tt, record s { trail = a ∷ s.trail })
    else (err database_error, s)

unfoldable pub save_dead : Database → EvenementEnEchec → Action Store AuditError (Unit {0})
save_dead db d s =
    if db.takes_dead d
    then (ok tt, record s { dead = save dead_key d s.dead })
    else (err database_error, s)
