-- ===== src/Product/LifeCycle.antt =====
-- What the four workflow methods promise, for every class that has them, and what follows for any
-- sequence of calls.
use core_kernel.Prelude.{
  ℕ, ◌≡◌, ◌≢◌, refl, inl, inr, Bool, true, false, List, [], ◌∷◌, ◌++◌, arith, Result, ok, err,
  and_then, throw_if, not, Member, Bool-cases, subst, if◌then◌else◌,
}
use core_kernel.Product.Errors.{
  Statut, brouillon, valide, publie, archive, ProductError, transition,
}
use core_kernel.Product.Workflow.{is_allowed, allowed_transitions, assert_transition_allowed}

-- The methods `validate`, `rejectToDraft`, `publish` and `archive`.
pub data Move : Type 0 where
  validate reject_to_draft publish archive_it : Move

abbrev pub target : Move → Statut
target validate = valide
target reject_to_draft = brouillon
target publish = publie
target archive_it = archive

-- A method succeeds exactly if the life cycle allows its target, and then reaches it.
abbrev pub Follows :
    {P : Type 0} → (P → Statut) → P → Statut → Bool → Result ProductError P → Type 0
Follows {P} statut p to true r = (p' : P) × (r ≡ ok p') × (statut p' ≡ to)
Follows statut p to false r = r ≡ err (transition (statut p) to)

pub record LifeCycle (P : Type 0) : Type 0 where
  pub statut : P → Statut
  pub move : Move → ℕ → P → Result ProductError P
  pub follows :
      (m : Move) (now : ℕ) (p : P)
      → Follows statut p (target m) (is_allowed (statut p) (target m)) (move m now p)

followed :
    {P : Type 0} (statut : P → Statut) (p p' : P) (to : Statut) (b : Bool)
    → statut p' ≡ to
    → Follows statut p to b (and_then (throw_if (not b) (transition (statut p) to)) (λ _. ok p'))
followed statut p p' to true e = (p', refl, e)
followed statut p p' to false e = refl

-- A method that asserts the transition and then writes the new status follows the life cycle.
pub assert-Follows :
    {P : Type 0} (statut : P → Statut) (p p' : P) (to : Statut)
    → statut p' ≡ to
    → Follows statut p to
        (is_allowed (statut p) to)
        (and_then (assert_transition_allowed (statut p) to) (λ _. ok p'))
unfolding assert_transition_allowed
assert-Follows statut p p' to e = followed statut p p' to (is_allowed (statut p) to) e

-- An entity on which a method threw is as it was.
abbrev pub kept : {P : Type 0} → P → Result ProductError P → P
kept p (ok p') = p'
kept p (err _) = p

module _ {P : Type 0} (l : LifeCycle P) where
  -- The calls are made in turn; one that throws changes nothing.
  unfoldable pub run : ℕ → List Move → P → P
  run now [] p = p
  run now (m ∷ ms) p = run now ms (kept p (l.move m now p))

  step-statut :
      (m : Move) (now : ℕ) (p : P)
      → l.statut (kept p (l.move m now p))
        ≡ (if is_allowed (l.statut p) (target m) then target m else l.statut p)
  step-statut m now p = elim (Bool-cases (is_allowed (l.statut p) (target m))) [
    | inl e ↦ rw e (
        let (p', r, s) =
          subst (λ b. Follows l.statut p (target m) b (l.move m now p)) e (l.follows m now p) in
        rw r s)
    | inr e ↦
        rw e
          (rw (subst (λ b. Follows l.statut p (target m) b (l.move m now p)) e (l.follows m now p)))
  ]

  -- For every entity that follows the life cycle: from the status `archive` no sequence of calls
  -- leads anywhere, the status stays.
  pub run-archive :
      (now : ℕ) (ms : List Move) (p : P) → l.statut p ≡ archive → l.statut (run now ms p) ≡ archive
  unfolding run allowed_transitions
  run-archive now [] p h = h
  run-archive now (m ∷ ms) p h =
      run-archive now ms (kept p (l.move m now p)) (ground (arith, step-statut m now p))

  abbrev Split : (List Move → Type 0) → List Move → Type 0
  Split Before ms = (xs : List Move) × (ys : List Move) × (ms ≡ xs ++ (publish ∷ ys)) × Before xs

  published-Split :
      (now : ℕ) (ms : List Move) (p : P)
      → l.statut p ≢ publie
      → l.statut (run now ms p) ≡ publie
      → Split (λ xs. Unit {0}) ms
  unfolding run allowed_transitions
  published-Split now [] p n h = absurd (n h)
  published-Split now (publish ∷ ms) p n h = ([], ms, refl, tt)
  published-Split now (m ∷ ms) p n h =
      let p' : P = kept p (l.move m now p) in
      let s = step-statut m now p in
      let (xs, ys, e, u) = published-Split now ms p' (λ q. ground arith) h in (m ∷ xs, ys, rw e, tt)

  -- For every entity that follows the life cycle: if calls lead a draft to the status `publie`,
  -- then there was a call of `validate` and a later one of `publish` among them.
  pub published_after_validate :
      (now : ℕ) (ms : List Move) (p : P)
      → l.statut p ≡ brouillon
      → l.statut (run now ms p) ≡ publie
      → Split (Member validate) ms
  unfolding run allowed_transitions
  published_after_validate now [] p d h = ground arith
  published_after_validate now (validate ∷ ms) p d h =
      let p' : P = kept p (l.move validate now p) in
      let s = step-statut validate now p in
      let (xs, ys, e, u) = published-Split now ms p' (λ q. ground arith) h in
      (validate ∷ xs, ys, rw e, inl refl)
  published_after_validate now (m ∷ ms) p d h =
      let p' : P = kept p (l.move m now p) in
      let s = step-statut m now p in
      let (xs, ys, e, u) = published_after_validate now ms p' (ground arith) h in
      (m ∷ xs, ys, rw e, inr u)
