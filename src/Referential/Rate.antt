-- ===== src/Referential/Rate.antt =====
-- Which exchange rate is answered.
use core_kernel.Prelude.{
  ℕ, ◌≤◌, ◌≡◌, ◌⊎◌, ap, inl, inr, true, false, some, List, arith, ◌==◌, Option-cases, find?,
  find?-Member, find?-none, filter, filter-Member, Member-filter, Member, err, Member-sort,
  sort-Member, IsOrder, sort-IsSorted, find?-IsSorted,
}
use core_kernel.Referential.Taux.{
  TauxChange, is_valid_at, by_valid_du, latest_first, is_pair, find_by_paire, rate_of,
  no_valid_exchange_rate, resolve_exchange_rate,
}

by_valid_du-IsOrder : IsOrder by_valid_du
by_valid_du-IsOrder = record { total = λ a b h. ground arith; trans = λ a b c h k. ground arith }

-- A rate of the table for the pair, in force at the instant, that begins no earlier than any other.
pub record IsLatest (base cible instant : ℕ) (rows : List TauxChange) (t : TauxChange)
    : Type 0 where
  pub there : Member t rows
  pub paired : is_pair base cible t ≡ true
  pub valid : is_valid_at instant t ≡ true
  pub latest :
      (b : TauxChange)
      → Member b rows
      → is_pair base cible b ≡ true
      → is_valid_at instant b ≡ true
      → b.valid_du ≤ t.valid_du

-- Between two different currencies, what is answered is the rate of a row for that pair that is in
-- force at the instant and begins no earlier than any other such row; and the answer is the error of a
-- missing rate only if no row for the pair is in force.
pub resolve_exchange_rate-IsLatest :
    (base cible instant : ℕ) (rows : List TauxChange)
    → (base == cible) ≡ false
    → ((t : TauxChange) × IsLatest base cible instant rows t
        × (resolve_exchange_rate base cible instant rows
            ≡ rate_of (no_valid_exchange_rate base cible instant) (some t)))
      ⊎ (((b : TauxChange)
            → Member b rows
            → is_pair base cible b ≡ true
            → is_valid_at instant b ≡ false)
          × (resolve_exchange_rate base cible instant rows
              ≡ err (no_valid_exchange_rate base cible instant)))
unfolding resolve_exchange_rate find_by_paire
resolve_exchange_rate-IsLatest base cible instant rows other =
    let pairs = filter (is_pair base cible) rows in
    elim (Option-cases (find? (is_valid_at instant) (latest_first pairs))) [
      | inl n ↦ inr (
        λ b m paired.
            find?-none (is_valid_at instant) b (latest_first pairs) n (
              Member-sort by_valid_du b pairs (Member-filter (is_pair base cible) b rows m paired)),
        rw other (ap (rate_of (no_valid_exchange_rate base cible instant)) n),
      )
      | inr (t, e) ↦
          let (m, valid) = find?-Member (is_valid_at instant) t (latest_first pairs) e in
          let (there, paired) =
            filter-Member (is_pair base cible) t rows (sort-Member by_valid_du t pairs m) in
          inl (
            t,
            record {
              there = there;
              paired = paired;
              valid = valid;
              latest = λ b mb pb vb.
                  let le =
                    find?-IsSorted by_valid_du by_valid_du-IsOrder (is_valid_at instant) t
                      (latest_first pairs) (sort-IsSorted by_valid_du by_valid_du-IsOrder pairs) e b
                      (Member-sort by_valid_du b pairs
                        (Member-filter (is_pair base cible) b rows mb pb))
                      vb in
                  ground arith;
            },
            rw other (ap (rate_of (no_valid_exchange_rate base cible instant)) e),
          )
    ]
