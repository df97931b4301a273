-- ===== src/Referential/Taux.antt =====
-- Exchange rates (`TauxChange` of src/referential/domain/entities/relations.entity.ts and
-- src/referential/application/use-cases/taux-change.use-cases.ts). Which currencies exist is an
-- argument.
use core_kernel.Prelude.{
  ℕ, Bool, true, false, not, ◌&&◌, ◌||◌, Option, none, some, List, [], ◌∷◌, Text, codes, leb, ◌==◌,
  if◌then◌else◌, sort, any, filter, find?, save, Action, Result, ok, err, pure, lift, modify,
  raise_if, ◌>>=◌, ◌>>◌,
}

abbrev is_digit : ℕ → Bool
is_digit c = leb b'0' c && leb c b'9'

-- `\d+`, then an end or what `rest` takes.
abbrev digits_then : (Text → Bool) → Text → Bool
digits_then rest [] = false
digits_then rest (c ∷ []) = is_digit c
digits_then rest (c ∷ d ∷ t) =
    let more = digits_then rest (d ∷ t) in is_digit c && (more || rest (d ∷ t))

abbrev no_more : Text → Bool
no_more t = false

abbrev fraction : Text → Bool
fraction [] = false
fraction (c ∷ t) = c == b'.' && digits_then no_more t

-- `DECIMAL_STRING_REGEX.test`
unfoldable pub is_decimal_string : Text → Bool
is_decimal_string = digits_then fraction

-- `Number(taux) > 0` for such a text: a digit is not 0. A text whose number is too small for the
-- source, which reads 0, is taken as positive here.
unfoldable pub is_positive : Text → Bool
is_positive = any (λ c. leb b'1' c && leb c b'9')

pub record TauxChange : Type 0 where
  pub id : ℕ
  pub devise_base_id : ℕ
  pub devise_cible_id : ℕ
  pub taux : Text
  pub valid_du : ℕ
  pub valid_au : Option ℕ
  pub source : Text

pub data TauxError : Type 0 where
  devise_not_found : TauxError
  invalid_taux : Text → TauxError
  invalid_period : TauxError
  no_valid_exchange_rate : ℕ → ℕ → ℕ → TauxError

abbrev pub ends_too_early : ℕ → Option ℕ → Bool
ends_too_early du none = false
ends_too_early du (some au) = leb au du

-- `TauxChange.create`
unfoldable pub create_taux_change : TauxChange → Result TauxError TauxChange
unfolding is_decimal_string is_positive
create_taux_change t =
    if not (is_decimal_string t.taux) || not (is_positive t.taux)
    then err (invalid_taux t.taux)
    else if ends_too_early t.valid_du t.valid_au
    then err invalid_period
    else ok t

abbrev pub lasts_until : ℕ → Option ℕ → Bool
lasts_until instant none = true
lasts_until instant (some au) = leb instant au

-- `isValidAt`
unfoldable pub is_valid_at : ℕ → TauxChange → Bool
is_valid_at instant t = leb t.valid_du instant && lasts_until instant t.valid_au

abbrev pub by_valid_du : TauxChange → TauxChange → Bool
by_valid_du a b = leb b.valid_du a.valid_du

-- `order: { validDu: 'DESC' }`
abbrev pub latest_first : List TauxChange → List TauxChange
latest_first = sort by_valid_du

abbrev pub is_pair : ℕ → ℕ → TauxChange → Bool
is_pair base cible t = t.devise_base_id == base && t.devise_cible_id == cible

-- `findByPaire`
unfoldable pub find_by_paire : ℕ → ℕ → List TauxChange → List TauxChange
find_by_paire base cible rows = latest_first (filter (is_pair base cible) rows)

abbrev pub taux_key : TauxChange → ℕ
taux_key t = t.id

pub data TauxEvent : Type 0 where
  taux_change_set : ℕ → ℕ → ℕ → Text → Text → TauxEvent

pub record TauxTable : Type 0 where
  pub taux : List TauxChange
  pub events : List TauxEvent

-- `SetTauxChangeUseCase.execute`
unfoldable pub set_taux_change : (ℕ → Bool) → TauxChange → Action TauxTable TauxError ℕ
set_taux_change devise_exists t = do
  raise_if (not (devise_exists t.devise_base_id)) devise_not_found
  raise_if (not (devise_exists t.devise_cible_id)) devise_not_found
  taux_change ← lift (create_taux_change t)
  modify (λ s. record s { taux = save taux_key taux_change s.taux })
  modify (λ s. record s {
    events = taux_change_set t.id t.devise_base_id t.devise_cible_id t.taux t.source ∷ s.events;
  })
  pure t.id

pub record ExchangeRate : Type 0 where
  pub taux : Text
  pub valid_du : ℕ
  pub valid_au : Option ℕ
  pub source : Text

abbrev pub rate_of : TauxError → Option TauxChange → Result TauxError ExchangeRate
rate_of e none = err e
rate_of e (some t) =
    ok (record { taux = t.taux; valid_du = t.valid_du; valid_au = t.valid_au; source = t.source })

-- `ResolveExchangeRateUseCase.execute`
unfoldable pub resolve_exchange_rate : ℕ → ℕ → ℕ → List TauxChange → Result TauxError ExchangeRate
unfolding find_by_paire is_valid_at
resolve_exchange_rate base cible instant rows =
    let found =
      rate_of (no_valid_exchange_rate base cible instant)
        (find? (is_valid_at instant) (find_by_paire base cible rows)) in
    if base == cible
    then ok (record {
      taux = codes "1";
      valid_du = instant;
      valid_au = none;
      source = codes "identite";
    })
    else found
