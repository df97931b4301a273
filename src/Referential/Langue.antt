-- ===== src/Referential/Langue.antt =====
-- The language that a country has by default is the first of its languages.
use core_kernel.Prelude.{
  ℕ, ◌≤◌, ◌≡◌, refl, ◌∙◌, ◌⊎◌, inl, inr, true, none, some, List, [], ◌∷◌, arith, ◌==◌, ==_iff,
  ==_refl, Option-cases, Member, sort, Member-filter, filter-Member, Member-sort, sort-Member,
  IsOrder, sort-IsSorted, find?, find?-Member, find?-IsSorted,
}
use core_kernel.Referential.Langues.{
  PaysLangue, priorite_statut, head, by_ordre, by_priorite, find_by_pays, langue_par_defaut,
}

by_priorite-IsOrder : IsOrder by_priorite
unfolding by_priorite
by_priorite-IsOrder = record { total = λ a b h. ground arith; trans = λ a b c h k. ground arith }

-- A language of the country of the best status, and of the lowest order among those.
pub record IsPrincipale (pays_id : ℕ) (rows : List PaysLangue) (r : PaysLangue) : Type 0 where
  pub there : Member r rows
  pub of_pays : r.pays_id ≡ pays_id
  pub best :
      (b : PaysLangue)
      → Member b rows
      → b.pays_id ≡ pays_id
      → priorite_statut r.statut ≤ priorite_statut b.statut
  pub lowest :
      (b : PaysLangue)
      → Member b rows
      → b.pays_id ≡ pays_id
      → priorite_statut b.statut ≡ priorite_statut r.statut
      → r.ordre ≤ b.ordre

head_found : (xs : List PaysLangue) → find? (λ r. true) xs ≡ head xs
head_found [] = refl
head_found (x ∷ xs) = refl

no-Member : (b : PaysLangue) (xs : List PaysLangue) → head xs ≡ none → ¬ Member b xs
no-Member b [] h m = m
no-Member b (x ∷ xs) h m = cc

-- What the comparison says of the two parts of its key.
best_status :
    (r b : PaysLangue)
    → by_priorite r b ≡ true
    → priorite_statut r.statut ≤ priorite_statut b.statut
unfolding by_priorite
best_status r b h = ground arith

lowest_order :
    (r b : PaysLangue)
    → by_priorite r b ≡ true
    → priorite_statut b.statut ≡ priorite_statut r.statut
    → r.ordre ≤ b.ordre
unfolding by_priorite
lowest_order r b h e = ground (arith, ==_refl (priorite_statut r.statut))

find_by_pays-Member :
    (pays_id : ℕ) (b : PaysLangue) (rows : List PaysLangue)
    → Member b (find_by_pays pays_id rows)
    → Member b rows × ((b.pays_id == pays_id) ≡ true)
unfolding find_by_pays
find_by_pays-Member pays_id b rows m =
    filter-Member (λ r. r.pays_id == pays_id) b rows (sort-Member by_ordre b _ m)

Member-find_by_pays :
    (pays_id : ℕ) (b : PaysLangue) (rows : List PaysLangue)
    → Member b rows
    → b.pays_id ≡ pays_id
    → Member b (find_by_pays pays_id rows)
unfolding find_by_pays
Member-find_by_pays pays_id b rows m e =
    Member-sort by_ordre b _
      (Member-filter (λ r. r.pays_id == pays_id) b rows m (rw e (==_refl pays_id)))

-- The language that a country has by default is one of its languages, of the best status (official,
-- national, of the first years of school, vehicular) and among those of the lowest order; and there
-- is none only if the country has no language.
pub langue_par_defaut-IsPrincipale :
    (pays_id : ℕ) (rows : List PaysLangue)
    → ((r : PaysLangue) × (langue_par_defaut pays_id rows ≡ some r) × IsPrincipale pays_id rows r)
      ⊎ ((langue_par_defaut pays_id rows ≡ none)
          × ((b : PaysLangue) → Member b rows → ¬ (b.pays_id ≡ pays_id)))
unfolding langue_par_defaut
langue_par_defaut-IsPrincipale pays_id rows =
    let own = find_by_pays pays_id rows in
    let sorted = sort by_priorite own in
    let there : (b : PaysLangue) → Member b rows → b.pays_id ≡ pays_id → Member b sorted =
      λ b m e. Member-sort by_priorite b own (Member-find_by_pays pays_id b rows m e) in
    elim (Option-cases (head sorted)) [
      | inl n ↦ inr (n, λ b m e. no-Member b sorted n (there b m e))
      | inr (r, e) ↦
          let found = head_found sorted ∙ e in
          let (m, _) = find?-Member (λ r. true) r sorted found in
          let (m', p) = find_by_pays-Member pays_id r rows (sort-Member by_priorite r own m) in
          let first : (b : PaysLangue) → Member b sorted → by_priorite r b ≡ true = λ b k.
            find?-IsSorted by_priorite by_priorite-IsOrder (λ r. true) r sorted
              (sort-IsSorted by_priorite by_priorite-IsOrder own) found b k refl in
          inl (
            r,
            e,
            record {
              there = m';
              of_pays = (==_iff r.pays_id pays_id).0 p;
              best = λ b k q. best_status r b (first b (there b k q));
              lowest = λ b k q same. lowest_order r b (first b (there b k q)) same;
            },
          )
    ]
