-- ===== src/Audit/Clean.antt =====
-- What the redaction keeps and what it does not.
use core_kernel.Prelude.{
  ℕ, suc, ◌+◌, ◌≤◌, ◌≡◌, refl, true, Text, leb, if_cases, arith, Bool-cases, inl, inr,
}
use core_kernel.Audit.Json.{
  Value, Elements, Entries, no_element, element, no_entry, entry, null, boolean, number, string,
  array, object, nesting, nesting_elements, nesting_entries,
}
use core_kernel.Audit.Redaction.{
  is_sensitive, is_proto, valeur_redacted, profondeur_max, redact_value, redact_elements,
  redact_fields, redact_sensitive_fields,
}

-- No field of a sensitive name has another value than the mark, at any depth.
unfoldable mutual
  pub IsClean : (Text → Text) → Value → Type 0
  IsClean lower (array xs) = CleanElements lower xs
  IsClean lower (object fs) = CleanEntries lower fs
  IsClean lower _ = Unit

  pub CleanElements : (Text → Text) → Elements → Type 0
  CleanElements lower no_element = Unit
  CleanElements lower (element x xs) = IsClean lower x × CleanElements lower xs

  pub CleanEntries : (Text → Text) → Entries → Type 0
  CleanEntries lower no_entry = Unit
  CleanEntries lower (entry cle v fs) =
      (is_sensitive lower cle ≡ true → v ≡ valeur_redacted)
      × IsClean lower v
      × CleanEntries lower fs

mutual
  unfolding IsClean redact_value

  pub redact_value-IsClean :
      (lower : Text → Text) (d : ℕ) (v : Value) → IsClean lower (redact_value lower d v)
  redact_value-IsClean lower d null =
      if_cases (IsClean lower) (leb profondeur_max d) _ _ (λ _. tt) (λ _. tt)
  redact_value-IsClean lower d (boolean b) =
      if_cases (IsClean lower) (leb profondeur_max d) _ _ (λ _. tt) (λ _. tt)
  redact_value-IsClean lower d (number b) =
      if_cases (IsClean lower) (leb profondeur_max d) _ _ (λ _. tt) (λ _. tt)
  redact_value-IsClean lower d (string b) =
      if_cases (IsClean lower) (leb profondeur_max d) _ _ (λ _. tt) (λ _. tt)
  redact_value-IsClean lower d (array xs) =
      if_cases (IsClean lower) (leb profondeur_max d) _ _ (λ _. tt)
        (λ _. redact_elements-CleanElements lower (suc d) xs)
  redact_value-IsClean lower d (object fs) =
      if_cases (IsClean lower) (leb profondeur_max d) _ _ (λ _. tt)
        (λ _. redact_fields-CleanEntries lower (suc d) fs)

  redact_elements-CleanElements :
      (lower : Text → Text) (d : ℕ) (xs : Elements)
      → CleanElements lower (redact_elements lower d xs)
  redact_elements-CleanElements lower d no_element = tt
  redact_elements-CleanElements lower d (element x xs) =
      (redact_value-IsClean lower d x, redact_elements-CleanElements lower d xs)

  redact_fields-CleanEntries :
      (lower : Text → Text) (d : ℕ) (fs : Entries) → CleanEntries lower (redact_fields lower d fs)
  redact_fields-CleanEntries lower d no_entry = tt
  redact_fields-CleanEntries lower d (entry cle v fs) =
      let rest = redact_fields-CleanEntries lower d fs in
      let inner =
        if_cases (IsClean lower) (is_sensitive lower cle) valeur_redacted _ (λ _. tt)
          (λ _. redact_value-IsClean lower d v) in
      if_cases (CleanEntries lower) (is_proto cle) _ _ (λ _. rest)
        (λ _. (λ e. ground arith, inner, rest))

mutual
  unfolding nesting redact_value

  redact_value-nesting :
      (lower : Text → Text) (d : ℕ) (v : Value) → d ≤ 6 → d + nesting (redact_value lower d v) ≤ 6
  redact_value-nesting lower d null h = ground arith
  redact_value-nesting lower d (boolean b) h = ground arith
  redact_value-nesting lower d (number b) h = ground arith
  redact_value-nesting lower d (string b) h = ground arith
  redact_value-nesting lower d (array xs) h = elim (Bool-cases (leb profondeur_max d)) [
    | inl e ↦ ground arith
    | inr e ↦ let q = redact_elements-nesting lower (suc d) xs (ground arith) in ground arith
  ]
  redact_value-nesting lower d (object fs) h = elim (Bool-cases (leb profondeur_max d)) [
    | inl e ↦ ground arith
    | inr e ↦ let q = redact_fields-nesting lower (suc d) fs (ground arith) in ground arith
  ]

  redact_elements-nesting :
      (lower : Text → Text) (d : ℕ) (xs : Elements)
      → d ≤ 6
      → d + nesting_elements (redact_elements lower d xs) ≤ 6
  redact_elements-nesting lower d no_element h = omega arith
  redact_elements-nesting lower d (element x xs) h =
      omega (arith, redact_value-nesting lower d x h, redact_elements-nesting lower d xs h)

  redact_fields-nesting :
      (lower : Text → Text) (d : ℕ) (fs : Entries)
      → d ≤ 6
      → d + nesting_entries (redact_fields lower d fs) ≤ 6
  redact_fields-nesting lower d no_entry h = omega arith
  redact_fields-nesting lower d (entry cle v fs) h =
      ground (arith, redact_value-nesting lower d v h, redact_fields-nesting lower d fs h)

mutual
  unfolding redact_value

  redact_value-redact_value :
      (lower : Text → Text) (d : ℕ) (v : Value)
      → redact_value lower d (redact_value lower d v) ≡ redact_value lower d v
  redact_value-redact_value lower d null = ground arith
  redact_value-redact_value lower d (boolean b) = ground arith
  redact_value-redact_value lower d (number b) = ground arith
  redact_value-redact_value lower d (string b) = ground arith
  redact_value-redact_value lower d (array xs) =
      let q = redact_elements-redact_elements lower (suc d) xs in ground arith
  redact_value-redact_value lower d (object xs) =
      let q = redact_fields-redact_fields lower (suc d) xs in ground arith

  redact_elements-redact_elements :
      (lower : Text → Text) (d : ℕ) (xs : Elements)
      → redact_elements lower d (redact_elements lower d xs) ≡ redact_elements lower d xs
  redact_elements-redact_elements lower d no_element = refl
  redact_elements-redact_elements lower d (element x xs) =
      let q = redact_value-redact_value lower d x in
      let r = redact_elements-redact_elements lower d xs in cc

  redact_fields-redact_fields :
      (lower : Text → Text) (d : ℕ) (fs : Entries)
      → redact_fields lower d (redact_fields lower d fs) ≡ redact_fields lower d fs
  redact_fields-redact_fields lower d no_entry = refl
  redact_fields-redact_fields lower d (entry cle v fs) =
      let q = redact_value-redact_value lower d v in
      let r = redact_fields-redact_fields lower d fs in ground arith

module _ (lower : Text → Text) (charge_utile : Entries) where
  -- Whatever the payload of an event, redaction leaves no field of a sensitive name with another value
  -- than the mark, at any depth, and leaves at most six arrays and objects inside one another.
  pub redact_sensitive_fields-IsClean :
      IsClean lower (redact_sensitive_fields lower charge_utile)
      × (nesting (redact_sensitive_fields lower charge_utile) ≤ 6)
  unfolding redact_sensitive_fields
  redact_sensitive_fields-IsClean = (
    redact_value-IsClean lower 0 (object charge_utile),
    omega (arith, redact_value-nesting lower 0 (object charge_utile)),
  )

  -- To redact what is redacted changes nothing.
  pub redact_sensitive_fields_twice :
      (again : Entries)
      → redact_sensitive_fields lower charge_utile ≡ object again
      → redact_sensitive_fields lower again ≡ object again
  unfolding redact_sensitive_fields
  redact_sensitive_fields_twice again h =
      let q = redact_value-redact_value lower 0 (object charge_utile) in cc
