-- ===== src/Engine/Tree.antt =====
-- Where a branch is reattached, the paths below it stay as they were, and two reattachments can close
-- a loop of parents.
use core_kernel.Prelude.{
  ℕ, ◌+◌, ◌≡◌, ◌≢◌, refl, inl, inr, Bool, true, false, none, some, List, [], ◌∷◌, arith, ok, Text,
  ◌==◌, same?, any, filter, find_by_key, find_by_key-save, find_by_key-Member, save, Bool-cases,
}
use core_kernel.Engine.Noeud.{
  Noeud, reattach_to_parent, root_path, child_path, would_create_cycle, is_published_active,
  assert_no_published_children,
}
use core_kernel.Engine.Chemin.{Writes, path, would_create_cycle-path}
use core_kernel.Engine.Hierarchy.{
  Store, noeud_key, find_children, get_compte, put_noeud, emit, branch_reattached, assert_free,
  new_parent, reattach_noeud, get_noeud,
}

-- The node may be moved or deactivated: it has no published child and no city.
pub record IsFree (id : ℕ) (s : Store) : Type 0 where
  pub no_published : any is_published_active (find_children id s.noeuds) ≡ false
  pub no_villes : get_compte id s.compteurs ≡ 0

IsFree-assert_free : (id : ℕ) (s : Store) → IsFree id s → assert_free id s ≡ (ok tt, s)
unfolding assert_free assert_no_published_children
IsFree-assert_free id s f = simp (f.no_published, f.no_villes)

module _ (show : ℕ → Text) where
  abbrev moved_root : ℕ → Noeud → Noeud
  moved_root now n = record n {
    parent_id = none;
    chemin = root_path show n.id;
    rang_normalise = 1;
    modifie_le = now;
  }

  abbrev moved_under : Noeud → ℕ → Noeud → Noeud
  moved_under p now n = record n {
    parent_id = some p.id;
    chemin = child_path show p.chemin n.id;
    rang_normalise = p.rang_normalise + 1;
    modifie_le = now;
  }

  reattach_root :
      (now id : ℕ) (n : Noeud) (s : Store)
      → find_by_key noeud_key id s.noeuds ≡ some n
      → IsFree id s
      → reattach_noeud show now id none s ≡ (
        ok tt,
        emit (branch_reattached n.id none (root_path show n.id)) (put_noeud (moved_root now n) s),
      )
  unfolding reattach_noeud get_noeud new_parent reattach_to_parent
  reattach_root now id n s f free = simp (f, IsFree-assert_free id s free)

  reattach_under :
      (now id : ℕ) (n p : Noeud) (s : Store)
      → find_by_key noeud_key id s.noeuds ≡ some n
      → IsFree id s
      → find_by_key noeud_key p.id s.noeuds ≡ some p
      → (p.id == 0) ≡ false
      → (p.pays_id == n.pays_id) ≡ true
      → would_create_cycle n.chemin p.chemin ≡ false
      → reattach_noeud show now id (some p.id) s ≡ (
        ok tt,
        emit
            (branch_reattached n.id (some p.id) (child_path show p.chemin n.id))
            (put_noeud (moved_under p now n) s),
      )
  unfolding reattach_noeud get_noeud new_parent reattach_to_parent
  reattach_under now id n p s f free g nz pays nocycle =
      simp (f, IsFree-assert_free id s free, nz, g, nocycle, pays)

any-filter-save :
    (p q : Noeud → Bool) (r : Noeud) (xs : List Noeud)
    → q r ≡ false
    → any p (filter q xs) ≡ false
    → any p (filter q (save noeud_key r xs)) ≡ false
any-filter-save p q r [] e h = ground arith
any-filter-save p q r (x ∷ xs) e h = ground (arith, any-filter-save p q r xs)

-- The node stands below the other one in the table.
abbrev pub IsChild : ℕ → ℕ → List Noeud → Type 0
IsChild child parent ns =
    (n : Noeud) × (find_by_key noeud_key child ns ≡ some n) × (n.parent_id ≡ some parent)

module _ (show : ℕ → Text) (writes : Writes show) where
  no_cycle_found :
      (id r : ℕ) (rest : List ℕ)
      → r ≢ id
      → would_create_cycle (root_path show id) (path show (r ∷ rest)) ≡ false
  no_cycle_found id r rest ne =
      elim (Bool-cases (would_create_cycle (root_path show id) (path show (r ∷ rest)))) [
        | inl e ↦
            let (ks, eq) = (would_create_cycle-path show writes (id ∷ []) (r ∷ rest)).0 e in
            absurd (ne cc)
        | inr e ↦ e
      ]

  moved_between : (now id : ℕ) (n : Noeud) (s : Store) → Store
  moved_between now id n s =
      emit (branch_reattached n.id none (root_path show n.id)) (put_noeud (moved_root show now n) s)

  IsFree-moved :
      (now id : ℕ) (n : Noeud) (s : Store) → IsFree id s → IsFree id (moved_between now id n s)
  unfolding moved_between
  IsFree-moved now id n s free = record {
    no_published =
        any-filter-save is_published_active (λ m. same? m.parent_id (some id))
          (moved_root show now n) s.noeuds refl free.no_published;
    no_villes = free.no_villes;
  }

  -- If the node `id` is not the first one on its tree's path, may be moved, and has the child `c` in
  -- the same country, then to make `id` a root and afterwards to hang it below `c` both succeed, and
  -- the two nodes are then each other's parents.
  pub reattach_twice_closes_cycle :
      (now id r : ℕ) (rest : List ℕ) (n c : Noeud) (s : Store)
      → find_by_key noeud_key id s.noeuds ≡ some n
      → find_by_key noeud_key c.id s.noeuds ≡ some c
      → c.parent_id ≡ some id
      → c.id ≢ id
      → c.id ≢ 0
      → c.pays_id ≡ n.pays_id
      → IsFree id s
      → c.chemin ≡ path show (r ∷ rest)
      → r ≢ id
      → let (first, s1) = reattach_noeud show now id none s in
        let (second, s2) = reattach_noeud show now id (some c.id) s1 in
        (first ≡ ok tt) × (second ≡ ok tt) × IsChild id c.id s2.noeuds × IsChild c.id id s2.noeuds
  unfolding moved_between
  reattach_twice_closes_cycle now id r rest n c s fn fc pc ne nz pays free path_c ner =
      let e : n.id ≡ id = (find_by_key-Member noeud_key id n s.noeuds fn).1 in
      let s1 = moved_between now id n s in
      let first = reattach_root show now id n s fn free in
      let found = find_by_key-save noeud_key id (moved_root show now n) s.noeuds in
      let found_c = find_by_key-save noeud_key c.id (moved_root show now n) s.noeuds in
      let second =
        reattach_under show now id (moved_root show now n) c s1 (ground arith)
          (IsFree-moved now id n s free) (ground arith) (ground arith) (ground arith)
          (rw path_c (rw e (no_cycle_found id r rest ner))) in
      let found' =
        find_by_key-save noeud_key id (moved_under show c now (moved_root show now n)) s1.noeuds in
      let found_c' =
        find_by_key-save noeud_key c.id (moved_under show c now (moved_root show now n))
          s1.noeuds in
      rw first (
        rw second (
          refl,
          refl,
          (moved_under show c now (moved_root show now n), ground arith, refl),
          (c, ground arith, pc),
        ))
