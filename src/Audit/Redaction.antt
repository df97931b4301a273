-- ===== src/Audit/Redaction.antt =====
-- What must not be kept in the audit trail (src/audit/domain/services/redaction.ts). `lower` stands
-- for `toLowerCase`.
use core_kernel.Prelude.{
  ℕ, suc, Bool, not, ◌||◌, List, [], ◌∷◌, Text, codes, text_eq, leb, ◌==◌, if◌then◌else◌, any,
  filter,
}
use core_kernel.Audit.Json.{
  Value, Elements, Entries, no_element, element, no_entry, entry, string, array, object,
}

abbrev pub noms_champs_sensibles : List Text
noms_champs_sensibles =
    codes "password"
    ∷ codes "passwordhash"
    ∷ codes "motdepasse"
    ∷ codes "token"
    ∷ codes "refreshtoken"
    ∷ codes "accesstoken"
    ∷ codes "code"
    ∷ codes "secret"
    ∷ codes "hash"
    ∷ codes "otp"
    ∷ codes "cvv"
    ∷ codes "cardnumber"
    ∷ codes "numerocarte"
    ∷ codes "ssn"
    ∷ codes "nir"
    ∷ []

-- `replace(/[_-]/g, '')`
abbrev pub drop_separators : Text → Text
drop_separators = filter (λ c. not (c == b'_' || c == b'-'))

unfoldable pub is_sensitive : (Text → Text) → Text → Bool
is_sensitive lower cle = any (text_eq (drop_separators (lower cle))) noms_champs_sensibles

abbrev pub valeur_redacted : Value
valeur_redacted = string (codes "[REDACTED]")

abbrev pub profondeur_max : ℕ
profondeur_max = 6

-- `resultat[cle] = val`: to assign to `__proto__` adds no field.
unfoldable pub is_proto : Text → Bool
is_proto cle = text_eq cle (codes "__proto__")

abbrev pub set_field : Text → Value → Entries → Entries
set_field cle v fs = if is_proto cle then fs else entry cle v fs

unfoldable mutual
  pub redact_value : (Text → Text) → ℕ → Value → Value
  redact_value lower profondeur (array xs) =
      let items = redact_elements lower (suc profondeur) xs in
      if leb profondeur_max profondeur then valeur_redacted else array items
  redact_value lower profondeur (object fs) =
      let fields = redact_fields lower (suc profondeur) fs in
      if leb profondeur_max profondeur then valeur_redacted else object fields
  redact_value lower profondeur v = if leb profondeur_max profondeur then valeur_redacted else v

  pub redact_elements : (Text → Text) → ℕ → Elements → Elements
  redact_elements lower profondeur no_element = no_element
  redact_elements lower profondeur (element x xs) =
      element (redact_value lower profondeur x) (redact_elements lower profondeur xs)

  pub redact_fields : (Text → Text) → ℕ → Entries → Entries
  redact_fields lower profondeur no_entry = no_entry
  redact_fields lower profondeur (entry cle v fs) =
      let inner = redact_value lower profondeur v in
      set_field cle (if is_sensitive lower cle then valeur_redacted else inner)
        (redact_fields lower profondeur fs)

unfoldable pub redact_sensitive_fields : (Text → Text) → Entries → Value
unfolding redact_value
redact_sensitive_fields lower charge_utile = redact_value lower 0 (object charge_utile)
