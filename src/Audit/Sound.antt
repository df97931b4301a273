-- ===== src/Audit/Sound.antt =====
-- What holds of the audit trail whatever happens to it.
use core_kernel.Prelude.{
  ℕ, ◌≡◌, false, ◌∷◌, [], List, some, Text, is_some, Result, ok, err, or_raise, raise_if,
  or_raise_cases, raise_if_cases, if_cases, All, save, find_by_key, ◌>>=◌, ◌>>◌, inl, inr,
  Bool-cases, ◌==◌, subst, bind_from,
}
use core_kernel.Audit.Clean.{IsClean, redact_sensitive_fields-IsClean}
use core_kernel.Audit.Trail.{
  AuditEvenement, EvenementEnEchec, dead_key, AuditError, Store, Database, exists_by_evenement_id,
  save_dead, mark_replayed, dead_letter_entry_not_found, dead_letter_entry_already_replayed,
  invalid_date,
}
use core_kernel.Audit.Process.{
  Platform, StreamMessage, new_dead, move_to_dead_letter, process_stream_event, replay_dead_letter,
  iso_text, message_of,
}
use core_kernel.Audit.Outcomes.{process_cases}

-- No two audit events are of one event of the stream.
abbrev pub IsDistinct : List AuditEvenement → Type 0
IsDistinct [] = Unit
IsDistinct (r ∷ rs) = (exists_by_evenement_id r.evenement_id rs ≡ false) × IsDistinct rs

-- Every event is recorded once, and every payload that is kept is redacted.
pub record IsSound (lower : Text → Text) (s : Store) : Type 0 where
  pub distinct : IsDistinct s.trail
  pub audited : All (λ (r : AuditEvenement). IsClean lower r.charge_utile) s.trail
  pub failed : All (λ (d : EvenementEnEchec). IsClean lower d.charge_utile) s.dead

All-save :
    {A : Type 0} (P : A → Type 0) (key : A → ℕ) (r : A) (xs : List A)
    → P r
    → All P xs
    → All P (save key r xs)
All-save P key r [] h k = (h, tt)
All-save P key r (x ∷ xs) h k =
    if_cases (All P) (key x == key r) _ _ (λ _. (h, k.1)) (λ _. (k.0, All-save P key r xs h k.1))

some-injective : {A : Type 0} {a b : A} → some a ≡ some b → a ≡ b
some-injective h = cc

All-find :
    {A : Type 0} (P : A → Type 0) (key : A → ℕ) (i : ℕ) (r : A) (xs : List A)
    → find_by_key key i xs ≡ some r
    → All P xs
    → P r
All-find P key i r [] h k = cc
All-find P key i r (x ∷ xs) h k = elim (Bool-cases (key x == i)) [
  | inl e ↦ subst P (some-injective (rw e at h)) k.0
  | inr e ↦ All-find P key i r xs (rw e at h) k.1
]

module _ (p : Platform) (db : Database) where
  pub process-IsSound :
      (id now : ℕ) (m : StreamMessage) (s : Store)
      → IsSound p.lower s
      → IsSound p.lower (process_stream_event p db id now m s).1
  process-IsSound id now m s h =
      process_cases p db id now m s (λ r. IsSound p.lower r.1) (λ _. h) (λ _. h)
        (λ fs e k. record {
          distinct = (k, h.distinct);
          audited = ((redact_sensitive_fields-IsClean p.lower fs).0, h.audited);
          failed = h.failed;
        })

  save_dead-IsSound :
      (d : EvenementEnEchec) (s : Store)
      → IsClean p.lower d.charge_utile
      → IsSound p.lower s
      → IsSound p.lower (save_dead db d s).1
  unfolding save_dead
  save_dead-IsSound d s c h =
      if_cases (λ (r : Result AuditError (Unit {0}) × Store). IsSound p.lower r.1) (db.takes_dead d)
        _ _
        (λ _. record {
          distinct = h.distinct;
          audited = h.audited;
          failed =
              All-save (λ (x : EvenementEnEchec). IsClean p.lower x.charge_utile) dead_key d s.dead
                c h.failed;
        })
        (λ _. h)

  pub move_to_dead_letter-IsSound :
      (id now : ℕ) (m : StreamMessage) (n : ℕ) (t : Text) (s : Store)
      → IsSound p.lower s
      → IsSound p.lower (move_to_dead_letter p db id now m n t s).1
  unfolding move_to_dead_letter
  move_to_dead_letter-IsSound id now m n t s h =
      save_dead-IsSound (new_dead p id now m n t) s (redact_sensitive_fields-IsClean p.lower _).0 h

  finish-IsSound :
      (r : Result AuditError (Unit {0})) (d : EvenementEnEchec) (s : Store)
      → IsClean p.lower d.charge_utile
      → IsSound p.lower s
      → IsSound p.lower (bind_from {B = Unit {0}} r s (λ _. save_dead db d)).1
  finish-IsSound (ok _) d s c h = save_dead-IsSound d s c h
  finish-IsSound (err _) d s c h = h

  pub replay_dead_letter-IsSound :
      (uuid now id : ℕ) (s : Store)
      → IsSound p.lower s
      → IsSound p.lower (replay_dead_letter p db uuid now id s).1
  unfolding replay_dead_letter
  replay_dead_letter-IsSound uuid now id s h =
      or_raise_cases {B = Unit {0}} (λ r. IsSound p.lower r.1) (find_by_key dead_key id s.dead)
        dead_letter_entry_not_found
        (λ d.
          raise_if (is_some d.rejoue_le) dead_letter_entry_already_replayed
          >> (or_raise (iso_text p d.horodatage) invalid_date >>= λ t.
              process_stream_event p db uuid now (message_of p d t)
              >> save_dead db (mark_replayed now d)))
        s
        (λ d e.
          raise_if_cases {B = Unit {0}} (λ r. IsSound p.lower r.1) (is_some d.rejoue_le)
            dead_letter_entry_already_replayed
            (or_raise (iso_text p d.horodatage) invalid_date >>= λ t.
              process_stream_event p db uuid now (message_of p d t)
              >> save_dead db (mark_replayed now d))
            s
            (λ _.
              or_raise_cases {B = Unit {0}} (λ r. IsSound p.lower r.1) (iso_text p d.horodatage)
                invalid_date
                (λ t.
                  process_stream_event p db uuid now (message_of p d t)
                  >> save_dead db (mark_replayed now d))
                s
                (λ t _.
                  finish-IsSound _ (mark_replayed now d) _
                    (All-find (λ (x : EvenementEnEchec). IsClean p.lower x.charge_utile) dead_key id
                      d s.dead e h.failed)
                    (process-IsSound uuid now (message_of p d t) s h))
                (λ _. h))
            (λ _. h))
        (λ _. h)
