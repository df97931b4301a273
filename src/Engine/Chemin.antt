-- ===== src/Engine/Chemin.antt =====
-- The comparison of materialised paths is that of the lists of identifiers that they are made of.
use core_kernel.Prelude.{
  ℕ, ◌≡◌, ◌≢◌, ◌↔◌, refl, sym, ap, ◌∙◌, true, ◌&&◌, List, [], ◌∷◌, ◌++◌, arith, Text, append_assoc,
  text_eq, text_eq_iff, All,
}
use core_kernel.Engine.Noeud.{slash, starts_with, would_create_cycle, child_path}

-- How identifiers are written: different ones differently, and without a slash.
pub record Writes (show : ℕ → Text) : Type 0 where
  pub injective : (i j : ℕ) → show i ≡ show j → i ≡ j
  pub no_slash : (i : ℕ) → All (λ c. c ≢ slash) (show i)

module _ (show : ℕ → Text) where
  -- The path of a chain of identifiers, the root first.
  abbrev pub segments : List ℕ → Text
  segments [] = []
  segments (i ∷ is) = show i ++ (slash ∷ segments is)

  abbrev pub path : List ℕ → Text
  path is = slash ∷ segments is

child_segments :
    (show : ℕ → Text) (is : List ℕ) (i : ℕ)
    → segments show is ++ (show i ++ (slash ∷ [])) ≡ segments show (is ++ (i ∷ []))
child_segments show [] i = refl
child_segments show (j ∷ js) i =
    append_assoc (show j) (slash ∷ segments show js) (show i ++ (slash ∷ []))
    ∙ ap (λ t. show j ++ (slash ∷ t)) (child_segments show js i)

-- The path of a child is that of its parent with one more identifier.
pub child_path-path :
    (show : ℕ → Text) (is : List ℕ) (i : ℕ)
    → child_path show (path show is) i ≡ path show (is ++ (i ∷ []))
child_path-path show is i = ap (λ t. slash ∷ t) (child_segments show is i)

starts_with-segment :
    (s t u v : Text)
    → All (λ c. c ≢ slash) s
    → All (λ c. c ≢ slash) t
    → starts_with (s ++ (slash ∷ u)) (t ++ (slash ∷ v)) ≡ (text_eq s t && starts_with u v)
unfolding starts_with text_eq
starts_with-segment [] [] u v p q = ground arith
starts_with-segment [] (y ∷ t) u v p q = ground arith
starts_with-segment (x ∷ s) [] u v p q = ground arith
starts_with-segment (x ∷ s) (y ∷ t) u v p q = ground (arith, starts_with-segment s t u v p.1 q.1)

-- The first chain of identifiers begins the second.
abbrev pub Begins : List ℕ → List ℕ → Type 0
Begins is js = (ks : List ℕ) × (js ≡ is ++ ks)

module _ (show : ℕ → Text) (writes : Writes show) where
  starts_with-segments :
      (is js : List ℕ) → starts_with (segments show is) (segments show js) ≡ true → Begins is js
  unfolding starts_with
  starts_with-segments [] js h = (js, refl)
  starts_with-segments (i ∷ is) [] h = absurd (stuck (show i) h)
    where
      stuck : (s : Text) → starts_with (s ++ (slash ∷ segments show is)) [] ≡ true → ⊥
      stuck [] e = cc
      stuck (x ∷ s) e = cc
  starts_with-segments (i ∷ is) (j ∷ js) h =
      let e : (text_eq (show i) (show j) && starts_with (segments show is) (segments show js))
          ≡ true =
        sym (
          starts_with-segment (show i) (show j) (segments show is) (segments show js)
            (writes.no_slash i) (writes.no_slash j))
        ∙ h in
      let same : i ≡ j = writes.injective i j ((text_eq_iff (show i) (show j)).0 (ground arith)) in
      let (ks, rest) = starts_with-segments is js (ground arith) in (ks, cc)

  segments-starts_with :
      (is ks : List ℕ) → starts_with (segments show is) (segments show (is ++ ks)) ≡ true
  unfolding starts_with
  segments-starts_with [] ks = refl
  segments-starts_with (i ∷ is) ks =
      rw
        (starts_with-segment (show i) (show i) (segments show is) (segments show (is ++ ks))
          (writes.no_slash i) (writes.no_slash i))
        (rw ((text_eq_iff (show i) (show i)).1 refl) (segments-starts_with is ks))

  pub would_create_cycle-path :
      (is js : List ℕ) → (would_create_cycle (path show is) (path show js) ≡ true) ↔ Begins is js
  unfolding would_create_cycle starts_with
  would_create_cycle-path is js = (
    λ h. starts_with-segments is js (ground arith),
    λ b. rw b.1 (rw (segments-starts_with is b.0)),
  )
