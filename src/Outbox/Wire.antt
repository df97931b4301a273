-- ===== src/Outbox/Wire.antt =====
-- The entry that the relay appends to the stream for a row, and what the audit consumer reads from it
-- (src/common/kernel-infrastructure/outbox/outbox-relay.service.ts).
use core_kernel.Prelude.{ℕ, Option, none, some, List, [], ◌∷◌, Text, codes}
use core_kernel.Outbox.Table.{Row}

-- `ligne.gsgOrgId ?? ''`; `text_of` gives the text of an identifier.
abbrev pub or_empty : (ℕ → Text) → Option ℕ → Text
or_empty text_of none = []
or_empty text_of (some i) = text_of i

-- The fields of `xadd`: each key is followed by its value.
unfoldable pub wire_fields : (ℕ → Text) → (ℕ → Text) → Row → List Text
wire_fields text_of to_iso ligne =
    codes "outboxId"
    ∷ text_of ligne.id
    ∷ codes "type"
    ∷ ligne.type_name
    ∷ codes "gsgOrgId"
    ∷ or_empty text_of ligne.gsg_org_id
    ∷ codes "horodatage"
    ∷ to_iso ligne.horodatage
    ∷ codes "produitSource"
    ∷ ligne.produit_source
    ∷ codes "chargeUtile"
    ∷ ligne.charge_utile
    ∷ []
