-- ===== src/Audit/Replay.antt =====
-- To replay an event that failed.
use core_kernel.Prelude.{Text}
use core_kernel.Audit.Json.{Entries}
use core_kernel.Audit.Redaction.{redact_fields}

-- What the redaction of an object leaves of its fields.
redacted : (Text → Text) → Entries → Entries
redacted lower fs = redact_fields lower 1 fs
