-- ===== src/Common/Ancestry.antt =====
-- The walk up the parents always answers, and answers rightly.
use core_kernel.Prelude.{
  ℕ, zero, suc, ◌+◌, ◌≤◌, ◌<◌, ◌≡◌, ◌≢◌, ◌↔◌, refl, sym, ap, subst, ◌∙◌, inl, inr, ◌⊎◌, Bool, true,
  false, not, Option, none, some, List, [], ◌∷◌, arith, ◌==◌, ==_iff, ==_refl, length, filter,
  Bool-cases, Option-cases, is_some,
}
use core_kernel.Common.Parents.{has_seen, walk}

-- Going up from a number by the parent function leads to `top`, in any number of steps.
pub data Below (parent : ℕ → Option ℕ) (top : ℕ) : ℕ → Type 0 where
  here : Below parent top top
  up : {a b : ℕ} → parent a ≡ some b → Below parent top b → Below parent top a

-- The list has every number that has a parent.
abbrev pub Covers : List ℕ → (ℕ → Option ℕ) → Type 0
Covers ids parent = (c p : ℕ) → parent c ≡ some p → has_seen c ids ≡ true

-- How many numbers have not been seen.
abbrev unseen : List ℕ → List ℕ → ℕ
unseen ids seen = length (filter (λ i. not (has_seen i seen)) ids)

unseen_grows : (c : ℕ) (ids seen : List ℕ) → unseen ids (c ∷ seen) ≤ unseen ids seen
unfolding has_seen
unseen_grows c [] seen = ground arith
unseen_grows c (i ∷ ids) seen = ground (arith, unseen_grows c ids seen)

unseen_drops :
    (c : ℕ) (ids seen : List ℕ)
    → has_seen c ids ≡ true
    → has_seen c seen ≡ false
    → unseen ids (c ∷ seen) < unseen ids seen
unfolding has_seen
unseen_drops c [] seen h fresh = cc
unseen_drops c (i ∷ ids) seen h fresh = elim (Bool-cases (i == c)) [
  | inl same ↦ let q : i ≡ c = ground arith in ground (arith, unseen_grows c ids seen)
  | inr other ↦ let drop = unseen_drops c ids seen (ground arith) fresh in ground arith
]

walk_stops :
    (fuel : ℕ) (parent : ℕ → Option ℕ) (target : ℕ) (seen : List ℕ)
    → 1 ≤ fuel
    → is_some (walk fuel parent target none seen) ≡ true
unfolding walk
walk_stops zero parent target seen enough = ground arith
walk_stops (suc fuel) parent target seen enough = refl

walk_answers :
    (fuel : ℕ) (ids : List ℕ) (parent : ℕ → Option ℕ) (target : ℕ) (cursor : Option ℕ)
    (seen : List ℕ)
    → Covers ids parent
    → unseen ids seen + 2 ≤ fuel
    → is_some (walk fuel parent target cursor seen) ≡ true
unfolding walk
walk_answers zero ids parent target cursor seen covers enough = ground arith
walk_answers (suc fuel) ids parent target none seen covers enough = refl
walk_answers (suc fuel) ids parent target (some c) seen covers enough =
    elim (Bool-cases (has_seen c seen)) [
      | inl old ↦ ground arith
      | inr fresh ↦ elim (Option-cases (parent c)) [
        | inl n ↦ ground (arith, walk_stops fuel parent target (c ∷ seen))
        | inr (p, found) ↦
            let next = walk_answers fuel ids parent target (some p) (c ∷ seen) covers in
            ground (arith, unseen_drops c ids seen (covers c p found) fresh)
      ]
    ]

unseen_bound : (ids seen : List ℕ) → unseen ids seen ≤ length ids
unseen_bound [] seen = ground arith
unseen_bound (i ∷ ids) seen = ground (arith, unseen_bound ids seen)

-- Fuel for one visit of each number that has a parent, and two more steps, is enough.
pub enough_fuel :
    (ids : List ℕ) (parent : ℕ → Option ℕ) (target start : ℕ)
    → Covers ids parent
    → is_some (walk (length ids + 2) parent target (some start) []) ≡ true
enough_fuel ids parent target start covers =
    walk_answers (length ids + 2) ids parent target (some start) [] covers
      (ground (arith, unseen_bound ids []))

-- A walk that goes on has a cursor that is neither the target nor seen.
walk_next :
    (fuel : ℕ) (parent : ℕ → Option ℕ) (target c : ℕ) (seen : List ℕ) (b : Bool)
    → walk (suc fuel) parent target (some c) seen ≡ some b
    → (c == target) ≡ false
    → ((b ≡ false) × (has_seen c seen ≡ true))
      ⊎ ((has_seen c seen ≡ false) × (walk fuel parent target (parent c) (c ∷ seen) ≡ some b))
unfolding walk
walk_next fuel parent target c seen b h other = elim (Bool-cases (has_seen c seen)) [
  | inl old ↦ inl (ground arith, old)
  | inr fresh ↦ inr (fresh, ground arith)
]

walk-none :
    (fuel : ℕ) (parent : ℕ → Option ℕ) (target : ℕ) (seen : List ℕ)
    → walk fuel parent target none seen ≢ some true
unfolding walk
walk-none zero parent target seen h = cc
walk-none (suc fuel) parent target seen h = cc

walk-Below :
    (fuel : ℕ) (parent : ℕ → Option ℕ) (target c : ℕ) (seen : List ℕ)
    → walk fuel parent target (some c) seen ≡ some true
    → Below parent target c
unfolding walk
walk-Below zero parent target c seen h = cc
walk-Below (suc fuel) parent target c seen h = elim (Bool-cases (c == target)) [
  | inl same ↦ subst (Below parent target) (sym ((==_iff c target).0 same)) here
  | inr other ↦ elim (walk_next fuel parent target c seen true h other) [
    | inl (e, _) ↦ cc
    | inr (_, next) ↦ elim (Option-cases (parent c)) [
      | inl n ↦ absurd (walk-none fuel parent target (c ∷ seen) (rw n at next))
      | inr (p, found) ↦ up found (walk-Below fuel parent target p (c ∷ seen) (rw found at next))
    ]
  ]
]

-- What was seen is not the target, and its parents were seen or are where the walk stands.
abbrev Trail : (ℕ → Option ℕ) → ℕ → ℕ → List ℕ → Type 0
Trail parent target c seen =
    (x : ℕ)
    → has_seen x seen ≡ true
    → (x ≢ target) × ((y : ℕ) → parent x ≡ some y → has_seen y (c ∷ seen) ≡ true)

-- No way out of a loop that was seen whole.
loop_misses :
    (parent : ℕ → Option ℕ) (target c : ℕ) (seen : List ℕ)
    → ((x : ℕ)
        → has_seen x seen ≡ true
        → (x ≢ target) × ((y : ℕ) → parent x ≡ some y → has_seen y seen ≡ true))
    → has_seen c seen ≡ true
    → Below parent target c
    → ⊥
loop_misses parent target _ seen closed old here = (closed target old).0 refl
loop_misses parent target c seen closed old (up {b = b} e rest) =
    loop_misses parent target b seen closed ((closed c old).1 b e) rest

Trail-closes :
    (parent : ℕ → Option ℕ) (target c : ℕ) (seen : List ℕ)
    → Trail parent target c seen
    → has_seen c seen ≡ true
    → (x : ℕ) → has_seen x seen ≡ true
    → (x ≢ target) × ((y : ℕ) → parent x ≡ some y → has_seen y seen ≡ true)
unfolding has_seen
Trail-closes parent target c seen trail old x sx =
    ((trail x sx).0, λ y e. ground (arith, (trail x sx).1 y e))

Trail-extends :
    (parent : ℕ → Option ℕ) (target c p : ℕ) (seen : List ℕ)
    → Trail parent target c seen
    → (c == target) ≡ false
    → parent c ≡ some p
    → Trail parent target p (c ∷ seen)
unfolding has_seen
Trail-extends parent target c p seen trail other found x sx = elim (Bool-cases (c == x)) [
  | inl same ↦
      let q : c ≡ x = (==_iff c x).0 same in
      (ground arith, λ y e. let e' : some p ≡ some y = sym found ∙ ap parent q ∙ e in ground arith)
  | inr new ↦
      let (ne, up_x) = trail x (ground arith) in (ne, λ y e. let sy = up_x y e in ground arith)
]

-- A walk that answers no did not pass by the target, and it does not lie further up.
walk_misses :
    (fuel : ℕ) (parent : ℕ → Option ℕ) (target c : ℕ) (seen : List ℕ)
    → walk fuel parent target (some c) seen ≡ some false
    → Trail parent target c seen
    → Below parent target c
    → ⊥
unfolding walk
walk_misses zero parent target c seen h trail r = cc
walk_misses (suc fuel) parent target _ seen h trail here = ground (arith, ==_refl target)
walk_misses (suc fuel) parent target c seen h trail (up {b = b} e rest) =
    elim (Bool-cases (c == target)) [
      | inl same ↦ ground arith
      | inr other ↦ elim (walk_next fuel parent target c seen false h other) [
        | inl (_, old) ↦
            loop_misses parent target c seen (Trail-closes parent target c seen trail old) old
              (up e rest)
        | inr (_, next) ↦
            walk_misses fuel parent target b (c ∷ seen) (rw e at next)
              (Trail-extends parent target c b seen trail other e) rest
      ]
    ]

-- The walk answers yes exactly if going up from the start leads to the target.
pub walk-iff_Below :
    (ids : List ℕ) (parent : ℕ → Option ℕ) (target start : ℕ)
    → Covers ids parent
    → (walk (length ids + 2) parent target (some start) [] ≡ some true) ↔ Below parent target start
unfolding has_seen
walk-iff_Below ids parent target start covers = (
  walk-Below (length ids + 2) parent target start [],
  λ r.
      elim (answer (walk (length ids + 2) parent target (some start) [])
        (enough_fuel ids parent target start covers)) [
          | inl found ↦ found
          | inr missed ↦ absurd (
              walk_misses (length ids + 2) parent target start [] missed
                (λ x e. absurd (nothing_seen x e)) r)
        ],
)
  where
    answer : (o : Option Bool) → is_some o ≡ true → (o ≡ some true) ⊎ (o ≡ some false)
    answer none e = cc
    answer (some true) e = inl refl
    answer (some false) e = inr refl

    nothing_seen : (x : ℕ) → has_seen x [] ≢ true
    nothing_seen x e = cc
