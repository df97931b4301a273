-- ===== src/Audit/Outcomes.antt =====
-- The three ways in which the processing of an event ends.
use core_kernel.Prelude.{
  ℕ, ◌≡◌, refl, Bool, true, false, ◌||◌, ◌∷◌, some, Result, ok, err, or_raise_cases, raise_if_cases,
  if_cases,
}
use core_kernel.Audit.Json.{Entries}
use core_kernel.Audit.Trail.{
  AuditError, invalid_stream_message, database_error, Store, Database, exists_by_evenement_id,
  save_audit,
}
use core_kernel.Audit.Process.{
  Platform, StreamMessage, is_empty, as_object, new_audit, record_event, process_stream_event,
}

module _ (p : Platform) (db : Database) (id now : ℕ) (m : StreamMessage) (s : Store)
    (Post : Result AuditError (Unit {0}) × Store → Type 0)
    (refused : (e : AuditError) → Post (err e, s))
    (known : exists_by_evenement_id m.outbox_id s.trail ≡ true → Post (ok tt, s))
    (added : (fs : Entries)
      → as_object (p.parse m.charge_utile_brute) ≡ some fs
      → exists_by_evenement_id m.outbox_id s.trail ≡ false
      → Post (ok tt, record s { trail = new_audit p id now m fs ∷ s.trail })) where
  save_cases :
      (fs : Entries)
      → as_object (p.parse m.charge_utile_brute) ≡ some fs
      → Post (save_audit db (new_audit p id now m fs) s)
  unfolding save_audit
  save_cases fs e = if_cases Post (exists_by_evenement_id m.outbox_id s.trail) _ _ known (λ h.
      if_cases Post (db.takes_audit (new_audit p id now m fs)) _ _ (λ _. added fs e h)
        (λ _. refused database_error))

  record_cases :
      (b : Bool)
      → exists_by_evenement_id m.outbox_id s.trail ≡ b
      → Post (record_event p db id now m b s)
  record_cases true h = known h
  record_cases false h =
      or_raise_cases {B = Unit {0}} Post (as_object (p.parse m.charge_utile_brute))
        invalid_stream_message (λ fs. save_audit db (new_audit p id now m fs)) s save_cases
        (λ _. refused invalid_stream_message)

  pub process_cases : Post (process_stream_event p db id now m s)
  unfolding process_stream_event
  process_cases =
      raise_if_cases {B = Unit {0}} Post (is_empty m.outbox_id || is_empty m.type_name)
        invalid_stream_message
        (λ t. record_event p db id now m (exists_by_evenement_id m.outbox_id t.trail) t) s
        (λ _. record_cases (exists_by_evenement_id m.outbox_id s.trail) refl)
        (λ _. refused invalid_stream_message)
