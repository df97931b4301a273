-- ===== src/Audit/Wire.antt =====
-- From the outbox to the audit trail.
use core_kernel.Prelude.{ℕ, ◌≡◌, refl, false, Option, none, some, [], ◌∷◌, Text, text_eq, ap}
use core_kernel.Outbox.Table.{Row}
use core_kernel.Outbox.Wire.{or_empty, wire_fields}
use core_kernel.Audit.Process.{StreamMessage, is_empty}
use core_kernel.Audit.Consumer.{parse_fields, non_empty}

abbrev pub text_of_org : (ℕ → Text) → Option ℕ → Option Text
text_of_org text_of none = none
text_of_org text_of (some i) = some (text_of i)

abbrev pub message_of_row : (ℕ → Text) → (ℕ → Text) → Row → StreamMessage
message_of_row text_of to_iso ligne = record {
  outbox_id = text_of ligne.id;
  type_name = ligne.type_name;
  gsg_org_id = text_of_org text_of ligne.gsg_org_id;
  horodatage = to_iso ligne.horodatage;
  produit_source = ligne.produit_source;
  charge_utile_brute = ligne.charge_utile;
}

non_empty-text : (t : Text) → is_empty t ≡ false → non_empty (some t) ≡ some t
non_empty-text [] h = cc
non_empty-text (c ∷ s) h = refl

org-read :
    (text_of : ℕ → Text) (o : Option ℕ)
    → ((i : ℕ) → is_empty (text_of i) ≡ false)
    → non_empty (some (or_empty text_of o)) ≡ text_of_org text_of o
org-read text_of none h = refl
org-read text_of (some i) h = non_empty-text (text_of i) (h i)

-- What the consumer reads from the entry that the relay wrote for a row is the row's event, with the
-- null organisation for an event without one, if no identifier has the empty text.
pub parse_fields-wire_fields :
    (text_of to_iso : ℕ → Text) (now_iso : Text) (ligne : Row)
    → ((i : ℕ) → is_empty (text_of i) ≡ false)
    → parse_fields now_iso (wire_fields text_of to_iso ligne) ≡ message_of_row text_of to_iso ligne
unfolding parse_fields wire_fields text_eq
parse_fields-wire_fields text_of to_iso now_iso ligne h =
    ap
      (λ o. record {
        outbox_id = text_of ligne.id;
        type_name = ligne.type_name;
        gsg_org_id = o;
        horodatage = to_iso ligne.horodatage;
        produit_source = ligne.produit_source;
        charge_utile_brute = ligne.charge_utile;
      })
      (org-read text_of ligne.gsg_org_id h)
