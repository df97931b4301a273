-- ===== src/Engine/Chains.antt =====
-- The identifiers from the root of a tree down to a node, and what it means that one such list begins
-- another.
use core_kernel.Prelude.{
  ℕ, ◌≡◌, ◌≢◌, ◌↔◌, refl, sym, ap, subst, ◌∙◌, ◌⊎◌, inl, inr, Option, none, some, List, [], ◌∷◌,
  ◌++◌, append_assoc, append-nil, find_by_key,
}
use core_kernel.Common.Ancestry.{Below}
use core_kernel.Engine.Noeud.{Noeud}
use core_kernel.Engine.Hierarchy.{noeud_key}
use core_kernel.Engine.Chemin.{Begins}

abbrev parent_of_row : Option Noeud → Option ℕ
parent_of_row none = none
parent_of_row (some n) = n.parent_id

-- The parent of a node of the table.
abbrev pub parent_in : List Noeud → ℕ → Option ℕ
parent_in ns id = parent_of_row (find_by_key noeud_key id ns)

pub data IsChain (ns : List Noeud) : List ℕ → ℕ → Type 0 where
  top :
      (id : ℕ) (n : Noeud)
      → find_by_key noeud_key id ns ≡ some n
      → n.parent_id ≡ none
      → IsChain ns (id ∷ []) id
  next :
      (id p : ℕ) (is : List ℕ) (n : Noeud)
      → find_by_key noeud_key id ns ≡ some n
      → n.parent_id ≡ some p
      → IsChain ns is p
      → IsChain ns (is ++ (id ∷ [])) id

snoc-not_nil : (xs : List ℕ) (x : ℕ) → xs ++ (x ∷ []) ≢ []
snoc-not_nil [] x e = cc
snoc-not_nil (y ∷ ys) x e = cc

snoc-injective : (xs ys : List ℕ) (x y : ℕ) → xs ++ (x ∷ []) ≡ ys ++ (y ∷ []) → (xs ≡ ys) × (x ≡ y)
snoc-injective [] [] x y e = (refl, cc)
snoc-injective [] (b ∷ ys) x y e = absurd (snoc-not_nil ys y cc)
snoc-injective (a ∷ xs) [] x y e = absurd (snoc-not_nil xs x cc)
snoc-injective (a ∷ xs) (b ∷ ys) x y e =
    let (p, q) = snoc-injective xs ys x y cc in let r : a ≡ b = cc in (cc, q)

snoc_cases : (xs : List ℕ) → (xs ≡ []) ⊎ ((ys : List ℕ) × (y : ℕ) × (xs ≡ ys ++ (y ∷ [])))
snoc_cases [] = inl refl
snoc_cases (x ∷ xs) = elim (snoc_cases xs) [
  | inl e ↦ inr ([], x, ap (λ zs. x ∷ zs) e)
  | inr (ys, y, e) ↦ inr (x ∷ ys, y, ap (λ zs. x ∷ zs) e)
]

module _ (ns : List Noeud) where
  last : {is : List ℕ} {id : ℕ} → IsChain ns is id → (hs : List ℕ) × (is ≡ hs ++ (id ∷ []))
  last (top id n f e) = ([], refl)
  last (next id p is n f e c) = (is, refl)

  same_node : {o : Option Noeud} {n m : Noeud} → o ≡ some n → o ≡ some m → n.parent_id ≡ m.parent_id
  same_node f g = ap parent_of_row (sym f ∙ g)

  none-some : {p : ℕ} → ¬ (none ≡ some p)
  none-some e = cc

  some-injective : {p q : ℕ} → some p ≡ some q → p ≡ q
  some-injective e = cc

  unique : {is js : List ℕ} {id : ℕ} → IsChain ns is id → IsChain ns js id → is ≡ js
  unique (top id n f e) (top _ m g e') = refl
  unique (top id n f e) (next _ p js m g e' d) = absurd (none-some (sym e ∙ same_node f g ∙ e'))
  unique (next id p is n f e c) (top _ m g e') = absurd (none-some (sym e' ∙ same_node g f ∙ e))
  unique (next id p is n f e c) (next _ q js m g e' d) =
      let at : q ≡ p = some-injective (sym e' ∙ same_node g f ∙ e) in
      ap (λ zs. zs ++ (id ∷ [])) (unique c (subst (IsChain ns js) at d))

  Below-Begins :
      {a b : ℕ} {is js : List ℕ}
      → Below (parent_in ns) a b
      → IsChain ns is a
      → IsChain ns js b
      → Begins is js
  Below-Begins {is = is} Below.here c d = ([], sym (unique c d) ∙ sym (append-nil is))
  Below-Begins {is = is} (Below.up e h) c (top id m g e') =
      absurd (none-some (sym e' ∙ sym (ap parent_of_row g) ∙ e))
  Below-Begins {is = is} (Below.up e h) c (next id q js m g e' d) =
      let at = some-injective (sym e' ∙ sym (ap parent_of_row g) ∙ e) in
      let (ks, k) = Below-Begins h c (subst (IsChain ns js) at d) in
      (ks ++ (id ∷ []), ap (λ zs. zs ++ (id ∷ [])) k ∙ append_assoc is ks (id ∷ []))

  -- Two chains that are equal end in the same node.
  same_end : {a b : ℕ} {is js : List ℕ} → IsChain ns is a → IsChain ns js b → js ≡ is → a ≡ b
  same_end {a = a} {b = b} c d e =
      let (hs, p) = last c in
      let (gs, q) = last d in (snoc-injective hs gs a b (sym p ∙ sym e ∙ q)).1

  ends_here :
      {a b : ℕ} {is js : List ℕ}
      → IsChain ns is a
      → IsChain ns js b
      → js ≡ is
      → Below (parent_in ns) a b
  ends_here {a = a} c d e = subst (Below (parent_in ns) a) (same_end c d e) Below.here

  not_nil : {a : ℕ} {is : List ℕ} → IsChain ns is a → is ≢ []
  not_nil {a = a} c e = let (hs, p) = last c in snoc-not_nil hs a (sym p ∙ e)

  append_nil_left : (xs ys : List ℕ) → xs ++ ys ≡ [] → xs ≡ []
  append_nil_left [] ys e = refl
  append_nil_left (x ∷ xs) ys e = cc

  Begins-Below :
      {a b : ℕ} {is js : List ℕ} (ks : List ℕ)
      → IsChain ns is a
      → IsChain ns js b
      → js ≡ is ++ ks
      → Below (parent_in ns) a b
  Begins-Below {is = is} ks c (top id n f e) k = elim (snoc_cases ks) [
    | inl z ↦ ends_here c (top id n f e) (k ∙ ap (λ zs. is ++ zs) z ∙ append-nil is)
    | inr (ys, y, z) ↦
        let split : [] ++ (id ∷ []) ≡ (is ++ ys) ++ (y ∷ []) =
          k ∙ ap (λ zs. is ++ zs) z ∙ sym (append_assoc is ys (y ∷ [])) in
        let (empty, _) = snoc-injective [] (is ++ ys) id y split in
        absurd (not_nil c (append_nil_left is ys (sym empty)))
  ]
  Begins-Below {is = is} ks c (next id p hs n f e d) k = elim (snoc_cases ks) [
    | inl z ↦ ends_here c (next id p hs n f e d) (k ∙ ap (λ zs. is ++ zs) z ∙ append-nil is)
    | inr (ys, y, z) ↦
        let split : hs ++ (id ∷ []) ≡ (is ++ ys) ++ (y ∷ []) =
          k ∙ ap (λ zs. is ++ zs) z ∙ sym (append_assoc is ys (y ∷ [])) in
        let (begins, _) = snoc-injective hs (is ++ ys) id y split in
        Below.up (ap parent_of_row f ∙ e) (Begins-Below ys c d begins)
  ]

  -- Of two nodes of a table, the chain of the first begins that of the second exactly if going up from
  -- the second leads to the first.
  pub Begins-iff_Below :
      {a b : ℕ} {is js : List ℕ}
      → IsChain ns is a
      → IsChain ns js b
      → Begins is js ↔ Below (parent_in ns) a b
  Begins-iff_Below c d = (λ b. Begins-Below b.0 c d b.1, λ h. Below-Begins h c d)
