-- ===== src/Referential/Memberships.antt =====
-- The memberships of regional blocks are never forgotten.
use core_kernel.Prelude.{
  ℕ, ◌≡◌, refl, sym, ap, ◌∙◌, inl, inr, Bool, true, none, some, ◌==◌, ==_iff, Bool-cases,
  find_by_key, find_by_key-save, find_by_key-Member, not, Result, raise_if_cases, or_raise_cases,
}
use core_kernel.Referential.Adhesion.{
  PaysBlocRegional, Adhesions, AdhesionError, pays_not_found, bloc_not_found, relation_not_found,
  put_adhesion, retire, adhesion_key, create_adhesion, withdraw, add_pays_to_bloc,
  withdraw_pays_from_bloc,
}

-- What the use cases make of the memberships, whether they fail or not. The identifier of a new
-- membership is not taken.
pub data Leads : Adhesions → Adhesions → Type 0 where
  stays : (s : Adhesions) → Leads s s
  adds :
      (pays_exists bloc_exists : ℕ → Bool) (id pays_id bloc_id date : ℕ) (s t : Adhesions)
      → Leads s t
      → find_by_key adhesion_key id t.rows ≡ none
      → Leads s (add_pays_to_bloc pays_exists bloc_exists id pays_id bloc_id date t).1
  withdraws :
      (id date : ℕ) (s t : Adhesions) → Leads s t → Leads s (withdraw_pays_from_bloc id date t).1

-- The later row is of the same membership, and withdrawn if the former was.
pub record Continues (r r' : PaysBlocRegional) : Type 0 where
  pub same_pays : r'.pays_id ≡ r.pays_id
  pub same_bloc : r'.bloc_regional_id ≡ r.bloc_regional_id
  pub same_adhesion : r'.date_adhesion ≡ r.date_adhesion
  pub stays_retire : r.statut_actuel ≡ retire → r'.statut_actuel ≡ retire

abbrev pub Kept : ℕ → PaysBlocRegional → Adhesions → Type 0
Kept id r s =
    (r' : PaysBlocRegional) × (find_by_key adhesion_key id s.rows ≡ some r') × Continues r r'

none-some : {r : PaysBlocRegional} → ¬ (none ≡ some r)
none-some h = cc

some-injective : {a b : PaysBlocRegional} → some a ≡ some b → a ≡ b
some-injective h = cc

-- To save a row that continues the membership where it has its identifier.
saved-Kept :
    (n : PaysBlocRegional) (k : ℕ) (r : PaysBlocRegional) (t : Adhesions)
    → ((n.id == k) ≡ true → Continues r n)
    → Kept k r t
    → Kept k r (put_adhesion n t)
saved-Kept n k r t next (r', e, c) = elim (Bool-cases (n.id == k)) [
  | inl y ↦ (n, find_by_key-save adhesion_key k n t.rows ∙ rw y refl, next y)
  | inr y ↦ (r', find_by_key-save adhesion_key k n t.rows ∙ rw y e, c)
]

added-Kept :
    (pays_exists bloc_exists : ℕ → Bool) (id pays_id bloc_id date k : ℕ) (r : PaysBlocRegional)
    (t : Adhesions)
    → find_by_key adhesion_key id t.rows ≡ none
    → Kept k r t
    → Kept k r (add_pays_to_bloc pays_exists bloc_exists id pays_id bloc_id date t).1
unfolding add_pays_to_bloc create_adhesion
added-Kept pays_exists bloc_exists id pays_id bloc_id date k r t free kept =
    let post = λ (p : Result AdhesionError ℕ × Adhesions). Kept k r p.1 in
    raise_if_cases post (not (pays_exists pays_id)) pays_not_found _ t
      (λ _.
        raise_if_cases post (not (bloc_exists bloc_id)) bloc_not_found _ t
          (λ _.
            saved-Kept (create_adhesion id pays_id bloc_id date) k r t
              (λ same. absurd (not_taken same kept)) kept)
          (λ _. kept))
      (λ _. kept)
  where
    not_taken : (id == k) ≡ true → ¬ Kept k r t
    not_taken same (r', e, c) =
        none-some
          (sym free ∙ ap (λ i. find_by_key adhesion_key i t.rows) ((==_iff id k).0 same) ∙ e)

withdrawn-Kept :
    (id date k : ℕ) (r : PaysBlocRegional) (t : Adhesions)
    → Kept k r t
    → Kept k r (withdraw_pays_from_bloc id date t).1
unfolding withdraw_pays_from_bloc withdraw
withdrawn-Kept id date k r t (r', e, c) =
    or_raise_cases (λ (p : Result AdhesionError (Unit {0}) × Adhesions). Kept k r p.1)
      (find_by_key adhesion_key id t.rows) relation_not_found _ t
      (λ relation found.
        saved-Kept (withdraw date relation) k r t
          (λ same.
            let at = (find_by_key-Member adhesion_key id relation t.rows found).1 in
            let here : relation ≡ r' = some-injective (
              sym found
              ∙ ap (λ i. find_by_key adhesion_key i t.rows) (sym at ∙ (==_iff relation.id k).0 same)
              ∙ e) in
            record {
              same_pays = ap (λ (x : PaysBlocRegional). x.pays_id) here ∙ c.same_pays;
              same_bloc = ap (λ (x : PaysBlocRegional). x.bloc_regional_id) here ∙ c.same_bloc;
              same_adhesion = ap (λ (x : PaysBlocRegional). x.date_adhesion) here ∙ c.same_adhesion;
              stays_retire = λ _. refl;
            })
          (r', e, c))
      (λ _. (r', e, c))

-- Whatever memberships the use cases add and withdraw, a membership of the table stays in it with its
-- country, its block and its date of accession, and one that was withdrawn stays withdrawn.
pub membership-Kept :
    (id : ℕ) (r : PaysBlocRegional) (s t : Adhesions)
    → find_by_key adhesion_key id s.rows ≡ some r
    → Leads s t
    → Kept id r t
membership-Kept id r s t e (stays _) = (
  r,
  e,
  record { same_pays = refl; same_bloc = refl; same_adhesion = refl; stays_retire = λ h. h },
)
membership-Kept id r s t e (adds pays_exists bloc_exists new pays_id bloc_id date _ u l free) =
    added-Kept pays_exists bloc_exists new pays_id bloc_id date id r u free
      (membership-Kept id r s u e l)
membership-Kept id r s t e (withdraws k date _ u l) =
    withdrawn-Kept k date id r u (membership-Kept id r s u e l)
