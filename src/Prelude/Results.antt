-- ===== src/Prelude/Results.antt =====
-- Results that carry an error, and operations on a state that can fail. What was written before a
-- failure stays written.
use mathlib.Core.Path.{◌≡◌, refl}
use mathlib.Core.Bool.{Bool, true, false}
use mathlib.Core.Option.{Option, none, some}
use core_kernel.Prelude.Tests.{if◌then◌else◌}

pub data Result {ℓ κ} (E : Type ℓ) (A : Type κ) : Type (ℓ ⊔ κ) where
  ok : A → Result E A
  err : E → Result E A

-- `throw e` if the test passes.
abbrev pub throw_if {ℓ} : {E : Type ℓ} → Bool → E → Result E (Unit {0})
throw_if true e = err e
throw_if false _ = ok tt

module _ {ℓ κ ι} {E : Type ℓ} {A : Type κ} {B : Type ι} where
  abbrev pub and_then : Result E A → (A → Result E B) → Result E B
  and_then (ok a) f = f a
  and_then (err e) _ = err e

abbrev pub Action {ℓ κ ι} : Type ℓ → Type κ → Type ι → Type (ℓ ⊔ κ ⊔ ι)
Action S E A = S → Result E A × S

module _ {ℓ κ ι} {S : Type ℓ} {E : Type κ} {A : Type ι} where
  abbrev pub pure : A → Action S E A
  pure a s = (ok a, s)

  abbrev pub raise : E → Action S E A
  raise e s = (err e, s)

  abbrev pub gets : (S → A) → Action S E A
  gets f s = (ok (f s), s)

  -- `if (!row) throw e`
  abbrev pub or_raise : Option A → E → Action S E A
  or_raise none e = raise e
  or_raise (some a) _ = pure a

  abbrev pub lift : Result E A → Action S E A
  lift r s = (r, s)

module _ {ℓ κ} {S : Type ℓ} {E : Type κ} where
  abbrev pub modify : (S → S) → Action S E (Unit {0})
  modify f s = (ok tt, f s)

  abbrev pub raise_if : Bool → E → Action S E (Unit {0})
  raise_if b e s = (if b then err e else ok tt, s)

infixl 5 ◌>>=◌ ◌>>◌
module _ {ℓ κ ι ν} {S : Type ℓ} {E : Type κ} {A : Type ι} {B : Type ν} where
  abbrev pub bind_from : Result E A → S → (A → Action S E B) → Result E B × S
  bind_from (ok a) s f = f a s
  bind_from (err e) s _ = (err e, s)

abbrev pub ◌>>=◌ {ℓ κ ι ν} :
    {S : Type ℓ} {E : Type κ} {A : Type ι} {B : Type ν}
    → Action S E A
    → (A → Action S E B)
    → Action S E B
◌>>=◌ m f s = let (r, s') = m s in bind_from r s' f

abbrev pub ◌>>◌ {ℓ κ ν} :
    {S : Type ℓ} {E : Type κ} {B : Type ν} → Action S E (Unit {0}) → Action S E B → Action S E B
m >> k = m >>= λ _. k

-- To prove something of an operation, split on its first step and keep the equation.
module _ {ℓ κ ι ν μ} {S : Type ℓ} {E : Type κ} {A : Type ι} {B : Type ν}
    (Post : Result E B × S → Type μ) where
  pub lift_cases :
      (r : Result E A) (f : A → Action S E B) (s : S)
      → ((a : A) → r ≡ ok a → Post (f a s))
      → ((e : E) → r ≡ err e → Post (err e, s))
      → Post ((lift r >>= f) s)
  lift_cases (ok a) f s good bad = good a refl
  lift_cases (err e) f s good bad = bad e refl

  pub or_raise_cases :
      (o : Option A) (e : E) (f : A → Action S E B) (s : S)
      → ((a : A) → o ≡ some a → Post (f a s))
      → (o ≡ none → Post (err e, s))
      → Post ((or_raise o e >>= f) s)
  or_raise_cases (some a) e f s good bad = good a refl
  or_raise_cases none e f s good bad = bad refl

module _ {ℓ κ ν μ} {S : Type ℓ} {E : Type κ} {B : Type ν} (Post : Result E B × S → Type μ) where
  pub raise_if_cases :
      (b : Bool) (e : E) (f : Action S E B) (s : S)
      → (b ≡ false → Post (f s))
      → (b ≡ true → Post (err e, s))
      → Post ((raise_if b e >> f) s)
  raise_if_cases true e f s good bad = bad refl
  raise_if_cases false e f s good bad = good refl

-- To forget a result leaves the state as it is.
pub forget_state {ℓ κ ι} :
    {S : Type ℓ} {E : Type κ} {A : Type ι} (r : Result E A) (s : S)
    → (bind_from {ℓ, κ, ι, 0} {B = Unit {0}} r s (λ _. pure tt)).1 ≡ s
forget_state (ok a) s = refl
forget_state (err e) s = refl
