-- ===== src/Engine/Grown.antt =====
-- While nodes are only created, the test on paths decides which node lies below which.
use core_kernel.Prelude.{
  ℕ, ◌≡◌, ◌↔◌, refl, sym, ap, subst, ◌∙◌, inl, inr, true, not, Option, none, some, List, [], ◌∷◌,
  ◌++◌, Text, Result, ok, err, find_by_key, find_by_key-save, find_by_key-Member, save, ◌==◌,
  ==_iff, ==_refl, Bool-cases, given, or_raise_cases, raise_if_cases, bind_from, ◌+◌,
}
use core_kernel.Common.Ancestry.{Below}
use core_kernel.Engine.Workflow.{EngineError}
use core_kernel.Engine.Noeud.{
  Noeud, Details, would_create_cycle, create_root, create_child, child_path,
}
use core_kernel.Engine.Hierarchy.{
  Store, CreateCommand, Task, noeud_key, create_noeud, new_noeud, new_root, new_child, get_noeud,
  has_niveau, assert_niveau_defini, given_text,
}
use core_kernel.Engine.Chemin.{Writes, path, Begins, child_path-path, would_create_cycle-path}
use core_kernel.Engine.Chains.{IsChain, parent_in, Begins-iff_Below}

-- The node's path is the one that belongs to the chain of its ancestors.
abbrev IsPlaced : (ℕ → Text) → List Noeud → ℕ → Noeud → Type 0
IsPlaced show ns id n = (is : List ℕ) × IsChain ns is id × (n.chemin ≡ path show is)

abbrev AllPlaced : (ℕ → Text) → List Noeud → Type 0
AllPlaced show ns =
    (id : ℕ) (n : Noeud) → find_by_key noeud_key id ns ≡ some n → IsPlaced show ns id n

some-injective : {a b : Noeud} → some a ≡ some b → a ≡ b
some-injective e = cc

none-some : {m : Noeud} → ¬ (none ≡ some m)
none-some e = cc

module _ (ns : List Noeud) (x : Noeud) (free : find_by_key noeud_key x.id ns ≡ none) where
  kept :
      (k : ℕ) (n : Noeud)
      → find_by_key noeud_key k ns ≡ some n
      → find_by_key noeud_key k (save noeud_key x ns) ≡ some n
  kept k n f = elim (Bool-cases (x.id == k)) [
    | inl e ↦
        let at = (==_iff x.id k).0 e in
        absurd (none-some (sym free ∙ ap (λ i. find_by_key noeud_key i ns) at ∙ f))
    | inr e ↦ find_by_key-save noeud_key k x ns ∙ rw e f
  ]

  kept-IsChain : {is : List ℕ} {id : ℕ} → IsChain ns is id → IsChain (save noeud_key x ns) is id
  kept-IsChain (IsChain.top id n f e) = IsChain.top id n (kept id n f) e
  kept-IsChain (IsChain.next id p is n f e c) =
      IsChain.next id p is n (kept id n f) e (kept-IsChain c)

  there : find_by_key noeud_key x.id (save noeud_key x ns) ≡ some x
  there = find_by_key-save noeud_key x.id x ns ∙ rw (==_refl x.id) refl

  -- To add a node that is placed.
  added-AllPlaced :
      (show : ℕ → Text)
      → AllPlaced show ns
      → IsPlaced show (save noeud_key x ns) x.id x
      → AllPlaced show (save noeud_key x ns)
  added-AllPlaced show h px id n f = elim (Bool-cases (x.id == id)) [
    | inl e ↦
        let at = (==_iff x.id id).0 e in
        let here : x ≡ n =
          some-injective
            (sym there ∙ ap (λ i. find_by_key noeud_key i (save noeud_key x ns)) at ∙ f) in
        subst (λ m. IsPlaced show (save noeud_key x ns) id m) here
          (subst (λ i. IsPlaced show (save noeud_key x ns) i x) at px)
    | inr e ↦
        let saved : find_by_key noeud_key id (save noeud_key x ns) ≡ find_by_key noeud_key id ns =
          find_by_key-save noeud_key id x ns ∙ rw e refl in
        let (is, c, p) = h id n (sym saved ∙ f) in (is, kept-IsChain c, p)
  ]

module _ (show : ℕ → Text) (now id : ℕ) (d : Details) (s : Store)
    (free : find_by_key noeud_key id s.noeuds ≡ none) where
  -- What the first half of a creation makes: a node with the new identifier that will be placed.
  abbrev Made : Result EngineError Noeud × Store → Type 0
  Made (ok n, s') = (s' ≡ s) × (n.id ≡ id) × IsPlaced show (save noeud_key n s.noeuds) id n
  Made (err e, s') = s' ≡ s

  root-IsPlaced :
      (pays_id : ℕ) (code : Text)
      → let x = create_root show id pays_id code d now in
        IsPlaced show (save noeud_key x s.noeuds) id x
  unfolding create_root
  root-IsPlaced pays_id code =
      let x = create_root show id pays_id code d now in
      (id ∷ [], IsChain.top id x (there s.noeuds x free) refl, refl)

  new_root-Made : (p : Option ℕ) (t : Option Text) → Made (new_root show now id d p t s)
  unfolding new_root assert_niveau_defini create_root
  new_root-Made (some pays_id) (some code) =
      raise_if_cases Made (not (has_niveau pays_id 1 s.niveaux)) _ _ s
        (λ _. (refl, refl, root-IsPlaced pays_id code)) (λ _. refl)
  new_root-Made (some pays_id) none = refl
  new_root-Made none (some code) = refl
  new_root-Made none none = refl

  module _ (h : AllPlaced show s.noeuds) where
    child-IsPlaced :
        (parent_id : ℕ) (p : Noeud)
        → find_by_key noeud_key parent_id s.noeuds ≡ some p
        → let x = create_child show id p d now in IsPlaced show (save noeud_key x s.noeuds) id x
    unfolding create_child
    child-IsPlaced parent_id p f =
        let x = create_child show id p d now in
        let (is, c, e) = h parent_id p f in
        let at : p.id ≡ parent_id = (find_by_key-Member noeud_key parent_id p s.noeuds f).1 in
        (
          is ++ (id ∷ []),
          IsChain.next id parent_id is x (there s.noeuds x free) (ap some at)
              (kept-IsChain s.noeuds x free c),
          ap (λ t. child_path show t id) e ∙ child_path-path show is id,
        )

    new_child-Made : (parent_id : ℕ) → Made (new_child show now id d parent_id s)
    unfolding new_child get_noeud assert_niveau_defini create_child
    new_child-Made parent_id =
        or_raise_cases Made (find_by_key noeud_key parent_id s.noeuds) _ _ s
          (λ p f.
            raise_if_cases Made (not (has_niveau p.pays_id (p.rang_normalise + 1) s.niveaux)) _ _ s
              (λ _. (refl, refl, child-IsPlaced parent_id p f)) (λ _. refl))
          (λ _. refl)

    put-Made :
        (o : Result EngineError Noeud × Store) (f : Noeud → Task ℕ)
        → ((n : Noeud) (t : Store) → (f n t).1.noeuds ≡ save noeud_key n t.noeuds)
        → Made o
        → AllPlaced show (bind_from o.0 o.1 f).1.noeuds
    put-Made (ok n, s') f puts (same, at, placed) =
        let free' : find_by_key noeud_key n.id s.noeuds ≡ none =
          ap (λ i. find_by_key noeud_key i s.noeuds) at ∙ free in
        let placed' : IsPlaced show (save noeud_key n s.noeuds) n.id n =
          subst (λ i. IsPlaced show (save noeud_key n s.noeuds) i n) (sym at) placed in
        subst (AllPlaced show)
          (ap (λ (t : Store). save noeud_key n t.noeuds) (sym same) ∙ sym (puts n s'))
          (added-AllPlaced s.noeuds n free' show h placed')
    put-Made (err e, s') f puts same = subst (λ (t : Store). AllPlaced show t.noeuds) (sym same) h

created-AllPlaced :
    (show : ℕ → Text) (now id : ℕ) (c : CreateCommand) (s : Store)
    → find_by_key noeud_key id s.noeuds ≡ none
    → AllPlaced show s.noeuds
    → AllPlaced show (create_noeud show now id c s).1.noeuds
unfolding create_noeud
created-AllPlaced show now id c s free h =
    put-Made show now id c.details s free h (new_noeud show now id c (given c.parent_id) s) _
      (λ n t. refl) (made (given c.parent_id))
  where
    made : (o : Option ℕ) → Made show now id c.details s free (new_noeud show now id c o s)
    made (some parent_id) = new_child-Made show now id c.details s free h parent_id
    made none =
        new_root-Made show now id c.details s free (given c.pays_id) (given_text c.code_domaine)

-- The stores that creations lead to, whether they succeed or not, from one without nodes. The new
-- identifiers are not taken.
pub data IsGrown (show : ℕ → Text) : Store → Type 0 where
  bare : (s : Store) → s.noeuds ≡ [] → IsGrown show s
  grown :
      (now id : ℕ) (c : CreateCommand) (s : Store)
      → IsGrown show s
      → find_by_key noeud_key id s.noeuds ≡ none
      → IsGrown show (create_noeud show now id c s).1

grown-AllPlaced : (show : ℕ → Text) {s : Store} → IsGrown show s → AllPlaced show s.noeuds
grown-AllPlaced show (bare s e) =
    λ id n f. absurd (none-some (sym (ap (find_by_key noeud_key id) e) ∙ f))
grown-AllPlaced show (grown now id c s h free) =
    created-AllPlaced show now id c s free (grown-AllPlaced show h)

-- If identifiers are written differently from one another and without a slash, and the table of nodes
-- comes from creations alone, then the test on the paths of two of its nodes is true exactly if going
-- up from the candidate, in any number of steps or none, leads to the node.
pub would_create_cycle_descends :
    (show : ℕ → Text) (writes : Writes show) {s : Store} (a b : ℕ) (n m : Noeud)
    → IsGrown show s
    → find_by_key noeud_key a s.noeuds ≡ some n
    → find_by_key noeud_key b s.noeuds ≡ some m
    → (would_create_cycle n.chemin m.chemin ≡ true) ↔ Below (parent_in s.noeuds) a b
would_create_cycle_descends show writes {s = s} a b n m g f k =
    let (is, c, p) = grown-AllPlaced show g a n f in
    let (js, d, q) = grown-AllPlaced show g b m k in
    let chains = Begins-iff_Below s.noeuds c d in
    let paths : (would_create_cycle n.chemin m.chemin ≡ true) ↔ Begins is js =
      rw (p, q) (would_create_cycle-path show writes is js) in
    (λ h. chains.0 (paths.0 h), λ h. paths.1 (chains.1 h))
