-- ===== src/Audit/Journal.antt =====
-- The audit trail as a journal: which payload is kept for an event.
use core_kernel.Prelude.{
  ℕ, ◌≡◌, refl, true, false, Option, none, some, List, [], ◌∷◌, Text, text_eq, text_eq_iff, Result,
  ok, err, Bool-cases, inl, inr, arith, if◌then◌else◌, subst, sym,
}
use core_kernel.Audit.Json.{Value, Entries, null}
use core_kernel.Audit.Redaction.{redact_sensitive_fields}
use core_kernel.Audit.Trail.{AuditEvenement, Store, Database, AuditError, exists_by_evenement_id}
use core_kernel.Audit.Process.{Platform, StreamMessage, as_object, new_audit, process_stream_event}
use core_kernel.Audit.Outcomes.{process_cases}

-- The specification: a journal keeps the first payload that is noted for an event.
abbrev pub Journal : Type 0
Journal = Text → Option Value

abbrev pub first : Option Value → Value → Option Value
first none v = some v
first (some old) v = some old

abbrev pub note : Text → Value → Journal → Journal
note e v j x = if text_eq e x then first (j x) v else j x

-- The journal that a table represents.
abbrev pub journal : List AuditEvenement → Journal
journal [] x = none
journal (r ∷ rs) x =
    let rest = journal rs x in if text_eq r.evenement_id x then some r.charge_utile else rest

abbrev pub redacted_payload : Platform → StreamMessage → Option Entries → Value
redacted_payload p m none = null
redacted_payload p m (some fs) = redact_sensitive_fields p.lower fs

abbrev pub payload : Platform → StreamMessage → Value
payload p m = redacted_payload p m (as_object (p.parse m.charge_utile_brute))

abbrev pub note_if_ok : Result AuditError (Unit {0}) → Text → Value → Journal → Journal
note_if_ok (ok _) e v j = note e v j
note_if_ok (err _) e v j = j

exists-journal :
    (e : Text) (rs : List AuditEvenement)
    → exists_by_evenement_id e rs ≡ true
    → (v : Value) × (journal rs e ≡ some v)
unfolding exists_by_evenement_id
exists-journal e [] h = cc
exists-journal e (r ∷ rs) h = elim (Bool-cases (text_eq r.evenement_id e)) [
  | inl q ↦ (r.charge_utile, ground arith)
  | inr q ↦ let (v, k) = exists-journal e rs (ground arith) in (v, ground arith)
]

absent-journal :
    (e : Text) (rs : List AuditEvenement)
    → exists_by_evenement_id e rs ≡ false
    → journal rs e ≡ none
unfolding exists_by_evenement_id
absent-journal e [] h = refl
absent-journal e (r ∷ rs) h = ground (arith, absent-journal e rs)

note-known : (e : Text) (v w : Value) (j : Journal) (x : Text) → j e ≡ some w → note e v j x ≡ j x
note-known e v w j x h = elim (Bool-cases (text_eq e x)) [
  | inl q ↦ let same = (text_eq_iff e x).0 q in subst (λ y. note e v j y ≡ j y) same (ground arith)
  | inr q ↦ ground arith
]

journal-added :
    (p : Platform) (id now : ℕ) (m : StreamMessage) (fs : Entries) (rs : List AuditEvenement)
    (x : Text)
    → as_object (p.parse m.charge_utile_brute) ≡ some fs
    → exists_by_evenement_id m.outbox_id rs ≡ false
    → journal (new_audit p id now m fs ∷ rs) x ≡ note m.outbox_id (payload p m) (journal rs) x
journal-added p id now m fs rs x e h = elim (Bool-cases (text_eq m.outbox_id x)) [
  | inl q ↦
      let same = (text_eq_iff m.outbox_id x).0 q in
      let k = absent-journal x rs (subst (λ y. exists_by_evenement_id y rs ≡ false) same h) in
      simp (q, k, e)
  | inr q ↦ simp (q)
]

-- Whatever the table holds, the database does and the message is, to process a message does to the
-- journal that the table represents what the specification says, if the result is a success, and
-- nothing if it is an error; and the table of failures is as it was.
pub process_stream_event_refines :
    (p : Platform) (db : Database) (id now : ℕ) (m : StreamMessage) (s : Store) (x : Text)
    → let (r, s') = process_stream_event p db id now m s in
      (journal s'.trail x ≡ note_if_ok r m.outbox_id (payload p m) (journal s.trail) x)
      × (s'.dead ≡ s.dead)
process_stream_event_refines p db id now m s x =
    process_cases p db id now m s
      (λ (r, s').
        (journal s'.trail x ≡ note_if_ok r m.outbox_id (payload p m) (journal s.trail) x)
        × (s'.dead ≡ s.dead))
      (λ e. (refl, refl))
      (λ h.
        let (v, k) = exists-journal m.outbox_id s.trail h in
        (sym (note-known m.outbox_id (payload p m) v (journal s.trail) x k), refl))
      (λ fs e h. (journal-added p id now m fs s.trail x e h, refl))
