-- ===== src/Referential/Compte.antt =====
-- The counters of the engine and the cities of the referential.
use core_kernel.Prelude.{
  ℕ, ◌+◌, ◌-◌, ◌≡◌, refl, ap, ◌∙◌, inl, inr, true, Option, none, some, List, [], ◌∷◌, ◌++◌, arith,
  given, same?, ◌==◌, ==_iff, if◌then◌else◌, Bool-cases, find_by_key, save, IsKeyed,
  find_by_key-save, save-IsKeyed, find_by_key-Member, total, total-added, total-changed,
  Member-total,
}
use core_kernel.Engine.Hierarchy.{Compteur, compteur_key, get_compte, incrementer, decrementer}
use core_kernel.Engine.Villes.{
  VilleMessage, ville_created, ville_moved, Weather, update_for, handle_message,
}
use core_kernel.Referential.Ville.{Ville, Villes, ville_key, put_ville, emit_ville}

-- How many cities stand at a node.
abbrev pub stands : ℕ → Option ℕ → ℕ
stands n noeud = if same? (given noeud) (some n) then 1 else 0

abbrev pub cities_at : ℕ → List Ville → ℕ
cities_at n = total (λ v. stands n v.referentiel_hierarchique_id)

compte-save :
    (c : Compteur) (n : ℕ) (cs : List Compteur)
    → get_compte n (save compteur_key c cs)
      ≡ (if c.noeud_id == n then c.nombre_villes else get_compte n cs)
unfolding get_compte
compte-save c n cs =
    let q = find_by_key-save compteur_key n c cs in
    elim (Bool-cases (c.noeud_id == n)) [ inl e ↦ simp (q, e) | inr e ↦ simp (q, e) ]

pub compte-incrementer :
    (id n : ℕ) (cs : List Compteur)
    → get_compte n (incrementer id cs) ≡ (if id == n then get_compte n cs + 1 else get_compte n cs)
unfolding incrementer
compte-incrementer id n cs =
    let q = compte-save (record { noeud_id = id; nombre_villes = get_compte id cs + 1 }) n cs in
    elim (Bool-cases (id == n)) [
      | inl e ↦ let k = (==_iff id n).0 e in q ∙ rw e (ap (λ x. get_compte x cs + 1) k)
      | inr e ↦ q ∙ rw e refl
    ]

pub compte-decrementer :
    (id n : ℕ) (cs : List Compteur)
    → get_compte n (decrementer id cs) ≡ (if id == n then get_compte n cs - 1 else get_compte n cs)
unfolding decrementer
compte-decrementer id n cs =
    let q = compte-save (record { noeud_id = id; nombre_villes = get_compte id cs - 1 }) n cs in
    elim (Bool-cases (id == n)) [
      | inl e ↦ let k = (==_iff id n).0 e in q ∙ rw e (ap (λ x. get_compte x cs - 1) k)
      | inr e ↦ q ∙ rw e refl
    ]

-- What the updates of one message do to the counter of a node.
compte-incremented :
    (o : Option ℕ) (n : ℕ) (cs : List Compteur)
    → get_compte n (update_for true incrementer o cs).1
      ≡ get_compte n cs + (if same? o (some n) then 1 else 0)
compte-incremented none n cs = omega arith
compte-incremented (some id) n cs = let q = compte-incrementer id n cs in ground arith

compte-decremented :
    (o : Option ℕ) (n : ℕ) (cs : List Compteur)
    → get_compte n (update_for true decrementer o cs).1
      ≡ get_compte n cs - (if same? o (some n) then 1 else 0)
compte-decremented none n cs = omega arith
compte-decremented (some id) n cs = let q = compte-decrementer id n cs in ground arith

abbrev calm : Weather
calm = record { first = true; second = true; acks = true }

-- The counters once the events were handled in their order, each once and without a failure.
abbrev pub consume : List VilleMessage → List Compteur → List Compteur
consume [] cs = cs
consume (e ∷ es) cs = consume es (handle_message calm e cs).1

consume-append :
    (es : List VilleMessage) (e : VilleMessage) (cs : List Compteur)
    → consume (es ++ (e ∷ [])) cs ≡ (handle_message calm e (consume es cs)).1
consume-append [] e cs = refl
consume-append (x ∷ es) e cs = consume-append es e (handle_message calm x cs).1

update-done :
    (f : ℕ → List Compteur → List Compteur) (o : Option ℕ) (cs : List Compteur)
    → (update_for true f o cs).0 ≡ true
update-done f none cs = refl
update-done f (some id) cs = refl

handled-created :
    (o : Option ℕ) (n : ℕ) (cs : List Compteur)
    → get_compte n (handle_message calm (ville_created o) cs).1 ≡ get_compte n cs + stands n o
unfolding handle_message
handled-created o n cs =
    rw (update-done incrementer (given o) cs) (compte-incremented (given o) n cs)

handled-moved :
    (a b : Option ℕ) (n : ℕ) (cs : List Compteur)
    → get_compte n (handle_message calm (ville_moved a b) cs).1
      ≡ (get_compte n cs - stands n a) + stands n b
unfolding handle_message
handled-moved a b n cs =
    let cs' = (update_for true decrementer (given a) cs).1 in
    let q = compte-decremented (given a) n cs in
    let k = compte-incremented (given b) n cs' in
    rw (update-done decrementer (given a) cs)
      (rw (update-done incrementer (given b) cs') (omega (arith, q, k)))

-- The table of cities has one row for each, and the events that were emitted so far give each node
-- the number of the cities that stand at it.
pub record IsCounted (s : Villes) : Type 0 where
  pub keyed : IsKeyed ville_key s.villes
  pub counted : (n : ℕ) → get_compte n (consume s.events []) ≡ cities_at n s.villes

-- A city that is new is saved, and its creation is emitted.
pub added-IsCounted :
    (v : Ville) (s : Villes)
    → IsCounted s
    → find_by_key ville_key v.id s.villes ≡ none
    → IsCounted (emit_ville (ville_created v.referentiel_hierarchique_id) (put_ville v s))
unfolding put_ville
added-IsCounted v s h absent = record {
  keyed = save-IsKeyed ville_key v s.villes h.keyed;
  counted = λ n.
      let c = h.counted n in
      let q = handled-created v.referentiel_hierarchique_id n (consume s.events []) in
      let k =
        total-added (λ (x : Ville). stands n x.referentiel_hierarchique_id) ville_key v s.villes
          absent in
      ap (get_compte n) (consume-append s.events (ville_created v.referentiel_hierarchique_id) [])
      ∙ omega (arith, c, q, k);
}

-- A city that was found is moved, and its move is emitted.
pub moved-IsCounted :
    (v old : Ville) (s : Villes)
    → IsCounted s
    → find_by_key ville_key v.id s.villes ≡ some old
    → IsCounted (
        emit_ville
          (ville_moved old.referentiel_hierarchique_id v.referentiel_hierarchique_id)
          (put_ville v s))
unfolding put_ville
moved-IsCounted v old s h found = record {
  keyed = save-IsKeyed ville_key v s.villes h.keyed;
  counted = λ n.
      let c = h.counted n in
      let q =
        handled-moved old.referentiel_hierarchique_id v.referentiel_hierarchique_id n
          (consume s.events []) in
      let k =
        total-changed (λ (x : Ville). stands n x.referentiel_hierarchique_id) ville_key v old
          s.villes found in
      let one =
        Member-total (λ (x : Ville). stands n x.referentiel_hierarchique_id) old s.villes
          (find_by_key-Member ville_key v.id old s.villes found).0 in
      ap (get_compte n) (
        consume-append s.events
          (ville_moved old.referentiel_hierarchique_id v.referentiel_hierarchique_id) [])
      ∙ omega (arith, c, q, k, one);
}

pub kept-IsCounted :
    (v old : Ville) (s : Villes)
    → IsCounted s
    → find_by_key ville_key v.id s.villes ≡ some old
    → v.referentiel_hierarchique_id ≡ old.referentiel_hierarchique_id
    → IsCounted (put_ville v s)
unfolding put_ville
kept-IsCounted v old s h found same = record {
  keyed = save-IsKeyed ville_key v s.villes h.keyed;
  counted = λ n.
      let c = h.counted n in
      let e = ap (stands n) same in
      let k =
        total-changed (λ (x : Ville). stands n x.referentiel_hierarchique_id) ville_key v old
          s.villes found in
      omega (arith, c, e, k);
}
