-- ===== src/Referential/Counted.antt =====
-- The counters follow the use cases on cities, and what a redelivery does to them.
use core_kernel.Prelude.{
  ℕ, ◌+◌, ◌-◌, ◌≡◌, refl, ap, ◌∙◌, Bool, true, false, not, Option, none, some, List, [], Text,
  arith, given, ◌==◌, find_by_key, find_by_key-Member, Result, err, or_raise_cases, raise_if_cases,
  modify, pure, ◌>>◌,
}
use core_kernel.Engine.Hierarchy.{Compteur, get_compte, incrementer, decrementer}
use core_kernel.Engine.Villes.{ville_created, ville_moved, Weather, handle_message}
use core_kernel.Referential.Ville.{
  Ville, Villes, VilleError, VilleTask, ville_key, put_ville, emit_ville, create_ville, place_ville,
  activate_ville, check_noeud, pays_not_found, unpublished_hierarchical_node, ville_not_found,
  get_ville, add_ville, move_ville, set_ville_activation,
}
use core_kernel.Referential.Compte.{
  IsCounted, added-IsCounted, moved-IsCounted, kept-IsCounted, cities_at, consume,
  compte-incrementer, compte-decrementer,
}

module _ {A : Type 0} (published : ℕ → Bool) (Post : Result VilleError A × Villes → Type 0) where
  check_noeud_cases :
      (o : Option ℕ) (k : VilleTask A) (s : Villes)
      → Post (k s)
      → ((e : VilleError) → Post (err e, s))
      → Post ((check_noeud published o >> k) s)
  check_noeud_cases none k s good bad = good
  check_noeud_cases (some n) k s good bad =
      raise_if_cases {B = A} Post (not (published n)) (unpublished_hierarchical_node n) k s
        (λ _. good) (λ _. bad (unpublished_hierarchical_node n))

module _ (exists published : ℕ → Bool) (now id : ℕ) (s : Villes) (h : IsCounted s) where
  add_ville-IsCounted :
      (pays_id : ℕ) (nom : Text) (noeud : Option ℕ)
      → find_by_key ville_key id s.villes ≡ none
      → IsCounted (add_ville exists published now id pays_id nom noeud s).1
  unfolding add_ville create_ville
  add_ville-IsCounted pays_id nom noeud absent =
      let finish : VilleTask ℕ =
        modify (put_ville (create_ville now id pays_id nom noeud))
        >> (modify (emit_ville (ville_created noeud)) >> pure id) in
      raise_if_cases {B = ℕ} (λ r. IsCounted r.1) (not (exists pays_id)) pays_not_found
        (check_noeud published (given noeud) >> finish) s
        (λ _.
          check_noeud_cases published (λ (r : Result VilleError ℕ × Villes). IsCounted r.1)
            (given noeud) finish s
            (added-IsCounted (create_ville now id pays_id nom noeud) s h absent) (λ _. h))
        (λ _. h)

  at_id :
      (v : Ville)
      → find_by_key ville_key id s.villes ≡ some v
      → find_by_key ville_key v.id s.villes ≡ some v
  at_id v found =
      ap (λ i. find_by_key ville_key i s.villes)
        (find_by_key-Member ville_key id v s.villes found).1
      ∙ found

  move_ville-IsCounted : (noeud : Option ℕ) → IsCounted (move_ville published now id noeud s).1
  unfolding move_ville get_ville place_ville
  move_ville-IsCounted noeud =
      let finish : Ville → VilleTask (Unit {0}) = λ v.
        modify (put_ville (place_ville now noeud v))
        >> modify (emit_ville (ville_moved v.referentiel_hierarchique_id noeud)) in
      or_raise_cases {A = Ville} {B = Unit {0}} (λ r. IsCounted r.1)
        (find_by_key ville_key id s.villes) ville_not_found
        (λ v. check_noeud published (given noeud) >> finish v) s
        (λ v found.
          check_noeud_cases published (λ (r : Result VilleError (Unit {0}) × Villes). IsCounted r.1)
            (given noeud) (finish v) s
            (moved-IsCounted (place_ville now noeud v) v s h (at_id v found)) (λ _. h))
        (λ _. h)

  set_ville_activation-IsCounted :
      (est_actif : Bool) → IsCounted (set_ville_activation now id est_actif s).1
  unfolding set_ville_activation get_ville activate_ville
  set_ville_activation-IsCounted est_actif =
      or_raise_cases {A = Ville} {B = Unit {0}} (λ r. IsCounted r.1)
        (find_by_key ville_key id s.villes) ville_not_found
        (λ v. modify (put_ville (activate_ville now est_actif v))) s
        (λ v found. kept-IsCounted (activate_ville now est_actif v) v s h (at_id v found) refl)
        (λ _. h)

-- The tables of cities that requests lead to, from an empty one.
pub data IsPlaced (exists published : ℕ → Bool) : Villes → Type 0 where
  empty : IsPlaced exists published (record { villes = []; events = [] })
  added :
      {s : Villes} (now id pays_id : ℕ) (nom : Text) (noeud : Option ℕ)
      → find_by_key ville_key id s.villes ≡ none
      → IsPlaced exists published s
      → IsPlaced exists published (add_ville exists published now id pays_id nom noeud s).1
  moved :
      {s : Villes} (now id : ℕ) (noeud : Option ℕ)
      → IsPlaced exists published s
      → IsPlaced exists published (move_ville published now id noeud s).1
  activated :
      {s : Villes} (now id : ℕ) (est_actif : Bool)
      → IsPlaced exists published s
      → IsPlaced exists published (set_ville_activation now id est_actif s).1

placed-IsCounted :
    {exists published : ℕ → Bool} {s : Villes} → IsPlaced exists published s → IsCounted s
unfolding get_compte
placed-IsCounted empty = record { keyed = tt; counted = λ n. refl }
placed-IsCounted {exists} {published} (added {s = s} now id pays_id nom noeud absent h) =
    add_ville-IsCounted exists published now id s (placed-IsCounted h) pays_id nom noeud absent
placed-IsCounted {exists} {published} (moved {s = s} now id noeud h) =
    move_ville-IsCounted exists published now id s (placed-IsCounted h) noeud
placed-IsCounted {exists} {published} (activated {s = s} now id est_actif h) =
    set_ville_activation-IsCounted exists published now id s (placed-IsCounted h) est_actif

-- After any requests that create cities under new identifiers, move them or switch them on and off,
-- if the consumer of the engine handles every emitted event once, in order and without a failure, the
-- counter of each node is the number of the cities that stand at it.
pub consume-cities_at :
    (exists published : ℕ → Bool) (s : Villes) (n : ℕ)
    → IsPlaced exists published s
    → get_compte n (consume s.events []) ≡ cities_at n s.villes
consume-cities_at exists published s n h = (placed-IsCounted h).counted n

handled_move :
    (w : Weather) (a b : ℕ) (cs : List Compteur)
    → (a == 0) ≡ false
    → (b == 0) ≡ false
    → w.first ≡ true
    → w.second ≡ true
    → handle_message w (ville_moved (some a) (some b)) cs
      ≡ (w.acks, incrementer b (decrementer a cs))
unfolding handle_message
handled_move w a b cs za zb f s = simp (za, zb, f, s)

moved_counts :
    (a b : ℕ) (cs : List Compteur)
    → (a == b) ≡ false
    → (get_compte a (incrementer b (decrementer a cs)) ≡ get_compte a cs - 1)
      × (get_compte b (incrementer b (decrementer a cs)) ≡ get_compte b cs + 1)
moved_counts a b cs ab =
    let i = compte-incrementer b a (decrementer a cs) in
    let d = compte-decrementer a a cs in
    let i' = compte-incrementer b b (decrementer a cs) in
    let d' = compte-decrementer a b cs in (ground arith, ground arith)

-- A move from one node to another, both given, that is handled but not acknowledged, and handled
-- again when it is delivered again: the node that was left loses two cities, as far as it had them,
-- and the other node gets two.
pub redelivery_counts_twice :
    (w w' : Weather) (a b : ℕ) (cs : List Compteur)
    → (a == 0) ≡ false
    → (b == 0) ≡ false
    → (a == b) ≡ false
    → w.first ≡ true
    → w.second ≡ true
    → w.acks ≡ false
    → w'.first ≡ true
    → w'.second ≡ true
    → let (acked, once) = handle_message w (ville_moved (some a) (some b)) cs in
      let (acked', twice) = handle_message w' (ville_moved (some a) (some b)) once in
      (acked ≡ false)
      × (get_compte a twice ≡ get_compte a cs - 2)
      × (get_compte b twice ≡ get_compte b cs + 2)
redelivery_counts_twice w w' a b cs za zb ab f s k f' s' =
    let cs₁ = incrementer b (decrementer a cs) in
    let once = handled_move w a b cs za zb f s in
    let twice =
      ap (λ r. handle_message w' (ville_moved (some a) (some b)) r.1) once
      ∙ handled_move w' a b cs₁ za zb f' s' in
    let (a₁, b₁) = moved_counts a b cs ab in
    let (a₂, b₂) = moved_counts a b cs₁ ab in
    (
      ap (λ r. r.0) once ∙ k,
      ap (λ r. get_compte a r.1) twice ∙ omega (arith, a₁, a₂),
      ap (λ r. get_compte b r.1) twice ∙ omega (arith, b₁, b₂),
    )
