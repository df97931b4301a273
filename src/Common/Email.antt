-- ===== src/Common/Email.antt =====
-- E-mail addresses (src/common/value-objects/email.vo.ts). `lower` is JavaScript's `toLowerCase`.
use core_kernel.Prelude.{
  ℕ, Bool, false, ◌&&◌, ◌||◌, Option, none, some, List, [], ◌∷◌, Text, trim, ltb, leb, ◌==◌,
  if◌then◌else◌, length, all, any, is_alnum, codes,
}

-- `[a-zA-Z0-9.!#$%&'*+/=?^_`{|}~-]`
is_local_unit : ℕ → Bool
is_local_unit c = is_alnum c || any (λ d. c == d) (codes ".!#$%&'*+/=?^_`{|}~-")

-- The text before the first `sep`, and what follows it, if there is one.
abbrev break_at : ℕ → Text → Text × Option Text
break_at sep [] = ([], none)
break_at sep (c ∷ s) =
    let (before, after) = break_at sep s in if c == sep then ([], some s) else (c ∷ before, after)

abbrev add_unit : ℕ → List Text → List Text
add_unit c [] = []
add_unit c (part ∷ parts) = if c == b'.' then [] ∷ part ∷ parts else (c ∷ part) ∷ parts

-- The parts of a text between the dots.
split_dots : Text → List Text
split_dots [] = [] ∷ []
split_dots (c ∷ s) = add_unit c (split_dots s)

abbrev last_alnum : Text → Bool
last_alnum [] = false
last_alnum (c ∷ []) = is_alnum c
last_alnum (_ ∷ c ∷ s) = last_alnum (c ∷ s)

abbrev first_alnum : Text → Bool
first_alnum [] = false
first_alnum (c ∷ _) = is_alnum c

-- `[a-zA-Z0-9](?:[a-zA-Z0-9-]{0,61}[a-zA-Z0-9])?`
is_label : Text → Bool
is_label s =
    first_alnum s && last_alnum s && leb (length s) 63 && all (λ c. is_alnum c || c == b'-') s

abbrev is_domain : List Text → Bool
is_domain [] = false
is_domain (_ ∷ []) = false
is_domain labels = all is_label labels

-- `EMAIL_REGEX.test`: the local part holds no `@`, so the first one ends it.
abbrev matches_halves : Text × Option Text → Bool
matches_halves (_, none) = false
matches_halves ([], some _) = false
matches_halves (local, some domain) = all is_local_unit local && is_domain (split_dots domain)

unfoldable pub is_email : Text → Bool
unfolding is_local_unit split_dots is_label
is_email s = matches_halves (break_at b'@' s)

-- `Email.create`: the normalised address, none where it throws.
unfoldable pub create_email : (Text → Text) → Text → Option Text
unfolding is_email
create_email lower raw =
    let trimmed = lower (trim raw) in
    if length trimmed == 0 || ltb 254 (length trimmed)
    then none
    else if is_email trimmed
    then some trimmed
    else none
