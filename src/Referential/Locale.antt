-- ===== src/Referential/Locale.antt =====
-- Locales, their translations and the choice of a locale
-- (src/referential/domain/entities/locale-et-traduction.entity.ts,
-- src/referential/application/use-cases/locale.use-cases.ts and traduction.use-cases.ts, and
-- `resolveLocale` of src/referential/infrastructure/adapters/referential-defaults-lookup.adapter.ts).
use core_kernel.Prelude.{
  ℕ, Bool, true, false, ◌&&◌, ◌||◌, Option, none, some, List, [], ◌∷◌, ◌++◌, Text, trim, text_eq,
  leb, or_else, is_some, ◌==◌, if◌then◌else◌, find?, any, find_by_key, save, Action, Result, ok,
  err, pure, gets, or_raise, lift, modify, raise_if, ◌>>=◌, ◌>>◌,
}

abbrev is_lower : ℕ → Bool
is_lower c = leb b'a' c && leb c b'z'

abbrev is_upper : ℕ → Bool
is_upper c = leb b'A' c && leb c b'Z'

abbrev is_digit : ℕ → Bool
is_digit c = leb b'0' c && leb c b'9'

-- `[A-Z]{2}|\d{3}`
abbrev pub is_region : Text → Bool
is_region (a ∷ b ∷ []) = is_upper a && is_upper b
is_region (a ∷ b ∷ c ∷ []) = is_digit a && (is_digit b && is_digit c)
is_region _ = false

-- `(-region)?`
abbrev pub is_suffix : Text → Bool
is_suffix [] = true
is_suffix (c ∷ t) = c == b'-' && is_region t

-- `BCP47_REGEX.test`
unfoldable pub is_bcp47 : Text → Bool
is_bcp47 (a ∷ b ∷ []) = is_lower a && is_lower b
is_bcp47 (a ∷ b ∷ c ∷ t) =
    is_lower a && (is_lower b && ((is_lower c && is_suffix t) || is_suffix (c ∷ t)))
is_bcp47 _ = false

pub record Locale : Type 0 where
  pub id : ℕ
  pub code : Text
  pub libelle : Text
  pub est_par_defaut : Bool
  pub est_actif : Bool
  pub cree_le : ℕ
  pub modifie_le : ℕ

pub data LocaleError : Type 0 where
  invalid_locale_code : Text → LocaleError
  locale_code_already_exists : Text → LocaleError
  locale_not_found : LocaleError
  traduction_key_already_exists : Text → ℕ → LocaleError
  traduction_not_found : LocaleError

-- `Locale.create`
unfoldable pub create_locale : ℕ → ℕ → Text → Text → Result LocaleError Locale
unfolding is_bcp47
create_locale now id code libelle =
    if is_bcp47 code
    then ok (record {
      id = id;
      code = code;
      libelle = trim libelle;
      est_par_defaut = false;
      est_actif = true;
      cree_le = now;
      modifie_le = now;
    })
    else err (invalid_locale_code code)

unfoldable pub update_libelle : ℕ → Option Text → Locale → Locale
update_libelle now libelle l = record l { libelle = or_else libelle l.libelle; modifie_le = now }

-- `marquerCommeDefaut` and `retirerStatutDefaut`
unfoldable pub set_defaut : ℕ → Bool → Locale → Locale
set_defaut now est_par_defaut l = record l { est_par_defaut = est_par_defaut; modifie_le = now }

-- `deactivate` and `reactivate`
unfoldable pub activate_locale : ℕ → Bool → Locale → Locale
activate_locale now est_actif l = record l { est_actif = est_actif; modifie_le = now }

pub record Traduction : Type 0 where
  pub id : ℕ
  pub locale_id : ℕ
  pub cle : Text
  pub valeur : Text
  pub cree_le : ℕ
  pub modifie_le : ℕ

-- `Traduction.create`
unfoldable pub create_traduction : ℕ → ℕ → ℕ → Text → Text → Traduction
create_traduction now id locale_id cle valeur = record {
  id = id;
  locale_id = locale_id;
  cle = trim cle;
  valeur = valeur;
  cree_le = now;
  modifie_le = now;
}

-- `updateValeur`
unfoldable pub update_valeur : ℕ → Text → Traduction → Traduction
update_valeur now valeur t = record t { valeur = valeur; modifie_le = now }

pub data LocaleEvent : Type 0 where
  locale_created : ℕ → Text → LocaleEvent
  traduction_created : ℕ → ℕ → Text → LocaleEvent

pub record Locales : Type 0 where
  pub locales : List Locale
  pub traductions : List Traduction
  pub events : List LocaleEvent

abbrev pub LocaleTask : Type 0 → Type 0
LocaleTask A = Action Locales LocaleError A

abbrev pub locale_key : Locale → ℕ
locale_key l = l.id

abbrev pub traduction_key : Traduction → ℕ
traduction_key t = t.id

unfoldable pub put_locale : Locale → Locales → Locales
put_locale l s = record s { locales = save locale_key l s.locales }

-- `findByCode`
unfoldable pub find_by_code : Text → List Locale → Option Locale
find_by_code code = find? (λ l. text_eq l.code code)

-- `findParDefaut`
unfoldable pub find_par_defaut : List Locale → Option Locale
find_par_defaut = find? (λ l. l.est_par_defaut)

unfoldable pub get_locale : ℕ → LocaleTask Locale
get_locale id = do
  found ← gets (λ s. find_by_key locale_key id s.locales)
  or_raise found locale_not_found

-- `CreateLocaleUseCase.execute`
unfoldable pub add_locale : ℕ → ℕ → Text → Text → LocaleTask ℕ
unfolding find_by_code
add_locale now id code libelle = do
  deja_existante ← gets (λ s. is_some (find_by_code code s.locales))
  raise_if deja_existante (locale_code_already_exists code)
  locale ← lift (create_locale now id code libelle)
  modify (put_locale locale)
  modify (λ s. record s { events = locale_created id code ∷ s.events })
  pure id

-- `UpdateLocaleUseCase.execute`
unfoldable pub rename_locale : ℕ → ℕ → Option Text → LocaleTask (Unit {0})
unfolding get_locale
rename_locale now id libelle = do
  locale ← get_locale id
  modify (put_locale (update_libelle now libelle locale))

-- The former default loses its mark, unless it is the locale that gets it.
abbrev pub clear_defaut : ℕ → ℕ → Option Locale → Locales → Locales
clear_defaut now id none s = s
clear_defaut now id (some l) s = if l.id == id then s else put_locale (set_defaut now false l) s

-- `SetLocaleParDefautUseCase.execute`
unfoldable pub set_par_defaut : ℕ → ℕ → LocaleTask (Unit {0})
unfolding get_locale
set_par_defaut now id = do
  nouvelle ← get_locale id
  modify (λ s. clear_defaut now id (find_par_defaut s.locales) s)
  modify (put_locale (set_defaut now true nouvelle))

-- `SetLocaleActivationUseCase`: `deactivate` and `reactivate`
unfoldable pub set_locale_activation : ℕ → ℕ → Bool → LocaleTask (Unit {0})
unfolding get_locale
set_locale_activation now id est_actif = do
  locale ← get_locale id
  modify (put_locale (activate_locale now est_actif locale))

-- `CreateTraductionUseCase.execute`: the key is sought as it was given, and kept without the white
-- space around it.
unfoldable pub add_traduction : ℕ → ℕ → ℕ → Text → Text → LocaleTask ℕ
unfolding get_locale
add_traduction now id locale_id cle valeur = do
  _ ← get_locale locale_id
  existante ← gets (λ s. any (λ t. t.locale_id == locale_id && text_eq t.cle cle) s.traductions)
  raise_if existante (traduction_key_already_exists cle locale_id)
  modify (λ s. record s {
    traductions = save traduction_key (create_traduction now id locale_id cle valeur) s.traductions;
    events = traduction_created id locale_id cle ∷ s.events;
  })
  pure id

-- `UpdateTraductionUseCase.execute`
unfoldable pub change_traduction : ℕ → ℕ → Text → LocaleTask (Unit {0})
change_traduction now id valeur = do
  found ← gets (λ s. find_by_key traduction_key id s.traductions)
  traduction ← or_raise found traduction_not_found
  modify (λ s. record s {
    traductions = save traduction_key (update_valeur now valeur traduction) s.traductions;
  })

abbrev pub active_code : Option Locale → Option Text
active_code none = none
active_code (some l) = if l.est_actif then some l.code else none

abbrev pub or_next : Option Text → Option Text → Option Text
or_next none next = next
or_next (some c) next = some c

-- A code that is absent or empty is none.
abbrev pub given_code : Option Text → Option Text
given_code (some (c ∷ t)) = some (c ∷ t)
given_code _ = none

abbrev pub exact_code : Option Text → Option Text → List Locale → Option Text
exact_code (some langue) (some pays) ls = active_code (find_by_code (langue ++ (b'-' ∷ pays)) ls)
exact_code _ _ ls = none

abbrev pub langue_code : Option Text → List Locale → Option Text
langue_code none ls = none
langue_code (some langue) ls = active_code (find_by_code langue ls)

-- `resolveLocale`: the locale of the language and the country, then of the language, then the default
unfoldable pub resolve_locale : Option Text → Option Text → List Locale → Option Text
unfolding find_by_code find_par_defaut
resolve_locale langue pays ls =
    or_next (exact_code (given_code langue) (given_code pays) ls)
      (or_next (langue_code (given_code langue) ls) (active_code (find_par_defaut ls)))
