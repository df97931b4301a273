-- ===== src/Audit/Json.antt =====
-- JSON values. The entries of an object stand in the order of `Object.entries`; a number is known by
-- a code, since nothing here computes with it.
use core_kernel.Prelude.{ℕ, zero, suc, max, Bool, Text}

mutual
  pub data Entries : Type 0 where
    no_entry : Entries
    entry : Text → Value → Entries → Entries

  pub data Elements : Type 0 where
    no_element : Elements
    element : Value → Elements → Elements

  pub data Value : Type 0 where
    string : Text → Value
    boolean : Bool → Value
    number : ℕ → Value
    object : Entries → Value
    array : Elements → Value
    null : Value

-- How many arrays and objects stand inside one another.
unfoldable mutual
  pub nesting_entries : Entries → ℕ
  nesting_entries (entry cle v rest) = max (nesting v) (nesting_entries rest)
  nesting_entries no_entry = zero

  pub nesting_elements : Elements → ℕ
  nesting_elements (element v rest) = max (nesting v) (nesting_elements rest)
  nesting_elements no_element = zero

  pub nesting : Value → ℕ
  nesting (object fs) = suc (nesting_entries fs)
  nesting (array xs) = suc (nesting_elements xs)
  nesting _ = zero
