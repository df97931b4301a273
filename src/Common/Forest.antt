-- ===== src/Common/Forest.antt =====
-- Parents that form no loop, and the change of one parent.
use core_kernel.Prelude.{
  ℕ, ◌≡◌, ◌≢◌, refl, ap, sym, subst, ◌∙◌, inl, inr, ◌⊎◌, false, Option, none, some, ◌==◌, ==_iff,
  Bool-cases,
}
use core_kernel.Common.Ancestry.{Below, here, up}

-- No parent function step begins a way back.
abbrev pub IsAcyclic : (ℕ → Option ℕ) → Type 0
IsAcyclic parent = (x y : ℕ) → parent x ≡ some y → Below parent x y → ⊥

-- `changed` is `parent` with the parent of `e` set to `p`.
abbrev IsUpdate : ℕ → Option ℕ → (ℕ → Option ℕ) → (ℕ → Option ℕ) → Type 0
IsUpdate e p parent changed = (changed e ≡ p) × ((x : ℕ) → (e == x) ≡ false → changed x ≡ parent x)

Below-trans :
    {parent : ℕ → Option ℕ} {b c a : ℕ} → Below parent b a → Below parent c b → Below parent c a
Below-trans here k = k
Below-trans (up e h) k = up e (Below-trans h k)

-- A way up after the change goes as before, or passes by the changed element.
Below-update :
    (e p : ℕ) (parent changed : ℕ → Option ℕ)
    → IsUpdate e (some p) parent changed
    → {t a : ℕ} → Below changed t a
    → Below parent t a ⊎ (Below parent e a × Below parent t p)
Below-update e p parent changed (at, off) here = inl here
Below-update e p parent changed (at, off) {t} {a} (up {b = b} s rest) =
    let below = Below-update e p parent changed (at, off) rest in
    elim (Bool-cases (e == a)) [
      | inl same ↦
          let q : e ≡ a = (==_iff e a).0 same in
          let b_p : b ≡ p = cc in
          inr (
            subst (Below parent e) q here,
            elim below [ inl r ↦ subst (Below parent t) b_p r | inr (_, r) ↦ r ],
          )
      | inr other ↦
          let s' : parent a ≡ some b = sym (off a other) ∙ s in
          elim below [ inl r ↦ inl (up s' r) | inr (r, r') ↦ inr (up s' r, r') ]
    ]

Below-cut :
    (e : ℕ) (parent changed : ℕ → Option ℕ)
    → IsUpdate e none parent changed
    → {t a : ℕ} → Below changed t a
    → Below parent t a
Below-cut e parent changed u here = here
Below-cut e parent changed (at, off) {t} {a} (up {b = b} s rest) = elim (Bool-cases (e == a)) [
  | inl same ↦ let q : e ≡ a = (==_iff e a).0 same in cc
  | inr other ↦ up (sym (off a other) ∙ s) (Below-cut e parent changed (at, off) rest)
]

-- To set one parent keeps the ways up free of loops if the new parent does not lie below the element.
pub update-IsAcyclic :
    (e : ℕ) (o : Option ℕ) (parent changed : ℕ → Option ℕ)
    → IsUpdate e o parent changed
    → ((p : ℕ) → o ≡ some p → Below parent e p → ⊥)
    → IsAcyclic parent
    → IsAcyclic changed
update-IsAcyclic e none parent changed u clear acyclic x y s r = elim (Bool-cases (e == x)) [
  | inl same ↦ let q : e ≡ x = (==_iff e x).0 same in let at = u.0 in cc
  | inr other ↦ acyclic x y (sym (u.1 x other) ∙ s) (Below-cut e parent changed u r)
]
update-IsAcyclic e (some p) parent changed u clear acyclic x y s r =
    let below = Below-update e p parent changed u r in
    elim (Bool-cases (e == x)) [
      | inl same ↦
          let q : e ≡ x = (==_iff e x).0 same in
          let at = u.0 in
          let y_p : y ≡ p = cc in
          clear p refl (elim below [
            | inl k ↦ subst (λ z. Below parent z p) (sym q) (subst (Below parent x) y_p k)
            | inr (k, _) ↦ subst (Below parent e) y_p k
          ])
      | inr other ↦
          let s' : parent x ≡ some y = sym (u.1 x other) ∙ s in
          elim below [
            | inl k ↦ acyclic x y s' k
            | inr (k, k') ↦ clear p refl (Below-trans k' (up s' k))
          ]
    ]

-- What no number has as its parent is reached from itself only.
pub Below-unreferenced :
    (parent : ℕ → Option ℕ) (t : ℕ)
    → ((x : ℕ) → parent x ≢ some t)
    → {a : ℕ} → Below parent t a
    → a ≡ t
Below-unreferenced parent t free here = refl
Below-unreferenced parent t free (up {a = a} e rest) =
    absurd (free a (e ∙ ap some (Below-unreferenced parent t free rest)))
