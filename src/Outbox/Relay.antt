-- ===== src/Outbox/Relay.antt =====
-- The relay of the outbox to the stream
-- (src/common/kernel-infrastructure/outbox/outbox-relay.service.ts).
use core_kernel.Prelude.{ℕ, Bool, true, false, List, [], ◌∷◌, ◌++◌, Text, if◌then◌else◌}
use core_kernel.Outbox.Table.{
  Row, KernelEvent, insert, find_pending_batch, mark_published, mark_failed_attempt,
  mark_permanently_failed,
}

-- How one attempt ends: the stream takes the entry and the row is marked; the stream refuses; the
-- stream takes the entry but the row cannot be marked; or the failed attempt itself cannot be
-- recorded, the stream having taken the entry or not. The two updates that record a failed attempt
-- are taken as one, and a cycle or a sweep that the stopped service skips is no step.
pub data Outcome : Type 0 where
  relayed : Outcome
  refused : Text → Outcome
  unmarked : Text → Outcome
  unrecorded : Bool → Outcome

pub record Relay : Type 0 where
  pub rows : List Row
  pub stream : List ℕ

-- What one cycle meets: the outcome for each row, and whether the service was stopped before it.
pub record Weather : Type 0 where
  pub now : ℕ
  pub outcome : ℕ → Outcome
  pub stopped : ℕ → Bool

-- The entry that `xadd` appends is known by the row's identifier.
abbrev pub add : Row → Relay → Relay
add r s = record s { stream = s.stream ++ (r.id ∷ []) }

abbrev pub fail : Row → Text → Relay → Relay
fail r erreur s = record s { rows = mark_failed_attempt r.id erreur s.rows }

-- `relayOne` for one outcome, and whether the cycle goes on
unfoldable pub relay_one : ℕ → Row → Outcome → Relay → Bool × Relay
relay_one now r relayed s = (true, record (add r s) { rows = mark_published r.id now s.rows })
relay_one now r (refused erreur) s = (true, fail r erreur s)
relay_one now r (unmarked erreur) s = (true, fail r erreur (add r s))
relay_one now r (unrecorded true) s = (false, add r s)
relay_one now r (unrecorded false) s = (false, s)

-- The rows of a batch in their order: a failure that is not caught ends the cycle.
unfoldable pub relay_batch : Weather → List Row → Relay → Relay
unfolding relay_one
relay_batch w [] s = s
relay_batch w (r ∷ rs) s =
    let (goes_on, s') = relay_one w.now r (w.outcome r.id) s in
    let rest = relay_batch w rs s' in if w.stopped r.id then s else if goes_on then rest else s'

-- `runCycle`
unfoldable pub run_cycle : ℕ → Weather → Relay → Relay
run_cycle batch_size w s = relay_batch w (find_pending_batch batch_size s.rows) s

-- `sweepPermanentFailures`
unfoldable pub sweep_permanent_failures : ℕ → Relay → Relay
sweep_permanent_failures max s = record s { rows = mark_permanently_failed max s.rows }

-- What happens to the outbox.
pub data Step : Type 0 where
  published : ℕ → KernelEvent → ℕ → Step
  cycled : ℕ → Weather → Step
  swept : ℕ → Step

unfoldable pub perform : Step → Relay → Relay
unfolding run_cycle sweep_permanent_failures
perform (published id e now) s = record s { rows = insert id e now s.rows }
perform (cycled batch_size w) s = run_cycle batch_size w s
perform (swept max) s = sweep_permanent_failures max s

unfoldable pub perform_all : List Step → Relay → Relay
unfolding perform
perform_all [] s = s
perform_all (e ∷ es) s = perform_all es (perform e s)
