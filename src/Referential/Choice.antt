-- ===== src/Referential/Choice.antt =====
-- Which locale is chosen for a language and a country.
use core_kernel.Prelude.{
  ◌≡◌, ◌⊎◌, refl, inl, inr, true, Option, none, some, List, ◌∷◌, ◌++◌, Text, Bool-cases,
  find?-Member, Member, text_eq,
}
use core_kernel.Referential.Locale.{
  Locale, find_by_code, find_par_defaut, active_code, or_next, given_code, exact_code, langue_code,
  resolve_locale,
}

-- A locale of the table that is active and has the code.
abbrev pub Offers : List Locale → Text → Type 0
Offers ls c = (l : Locale) × Member l ls × (l.est_actif ≡ true) × (l.code ≡ c)

active_code-Offers :
    (o : Option Locale) (ls : List Locale) (c : Text)
    → ((l : Locale) → o ≡ some l → Member l ls)
    → active_code o ≡ some c
    → Offers ls c
active_code-Offers none ls c there h = cc
active_code-Offers (some l) ls c there h = elim (Bool-cases l.est_actif) [
  | inl on ↦ (l, there l refl, on, some-injective (rw on at h))
  | inr off ↦ absurd (none-some (rw off at h))
]
  where
    some-injective : {a b : Text} → some a ≡ some b → a ≡ b
    some-injective h = cc

    none-some : none ≡ some c → ⊥
    none-some h = cc

found-Member :
    (code : Text) (ls : List Locale) (l : Locale) → find_by_code code ls ≡ some l → Member l ls
unfolding find_by_code
found-Member code ls l h = (find?-Member (λ x. text_eq x.code code) l ls h).0

default-Member : (ls : List Locale) (l : Locale) → find_par_defaut ls ≡ some l → Member l ls
unfolding find_par_defaut
default-Member ls l h = (find?-Member (λ x. x.est_par_defaut) l ls h).0

-- What an alternative gives, one of its sides gives.
or_next-split : (a b : Option Text) (c : Text) → or_next a b ≡ some c → (a ≡ some c) ⊎ (b ≡ some c)
or_next-split none b c h = inr h
or_next-split (some x) b c h = inl h

exact-Offers :
    (langue pays : Option Text) (ls : List Locale) (c : Text)
    → exact_code langue pays ls ≡ some c
    → Offers ls c
exact-Offers none pays ls c h = cc
exact-Offers (some l) none ls c h = cc
exact-Offers (some l) (some p) ls c h =
    active_code-Offers (find_by_code (l ++ (b'-' ∷ p)) ls) ls c (found-Member (l ++ (b'-' ∷ p)) ls)
      h

langue-Offers :
    (langue : Option Text) (ls : List Locale) (c : Text)
    → langue_code langue ls ≡ some c
    → Offers ls c
langue-Offers none ls c h = cc
langue-Offers (some l) ls c h = active_code-Offers (find_by_code l ls) ls c (found-Member l ls) h

-- Whatever language and country are asked for, the code that is answered is the code of a locale of
-- the table that is active; and where the locale of the language and the country is in the table and
-- active, it is that one.
pub resolve_locale_offered :
    (langue pays : Option Text) (ls : List Locale) (c : Text)
    → resolve_locale langue pays ls ≡ some c
    → Offers ls c
      × ((exact : Text)
          → exact_code (given_code langue) (given_code pays) ls ≡ some exact
          → c ≡ exact)
unfolding resolve_locale
resolve_locale_offered langue pays ls c h = (
  elim (or_next-split (exact_code (given_code langue) (given_code pays) ls) _ c h) [
    | inl e ↦ exact-Offers (given_code langue) (given_code pays) ls c e
    | inr rest ↦ elim (or_next-split (langue_code (given_code langue) ls) _ c rest) [
      | inl e ↦ langue-Offers (given_code langue) ls c e
      | inr e ↦ active_code-Offers (find_par_defaut ls) ls c (default-Member ls) e
    ]
  ],
  λ exact e. let k = rw e at h in cc,
)
