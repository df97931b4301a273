-- ===== src/Referential/Codes.antt =====
-- No two entities of a nomenclature have one code.
use core_kernel.Prelude.{
  ℕ, ◌≡◌, refl, sym, ap, subst, ◌∙◌, inl, inr, true, false, none, some, List, [], ◌∷◌, Text, arith,
  text_eq, text_eq_iff, ◌==◌, if◌then◌else◌, Bool-cases, any, find_by_key, save, IsKeyed,
  save-IsKeyed, find_by_key-Member, Result, ok, err, or_raise_cases, lift_cases, lift, modify, pure,
  ◌>>=◌, ◌>>◌,
}
use core_kernel.Referential.Nomenclature.{
  Statut, publie, NomenclatureError, NomenclatureEvent, created, published, not_found, Kind,
  Nomenclature, put, emit, exists_by_code, get_row, add_row, assert_transition_allowed,
  after_assert, move_row, transition_row, publish_row, change_row,
}

different : (a b : Text) → text_eq a b ≡ false → text_eq b a ≡ false
different a b h = elim (Bool-cases (text_eq b a)) [
  | inl e ↦ let q : text_eq a b ≡ true = (text_eq_iff a b).1 (sym ((text_eq_iff b a).0 e)) in cc
  | inr e ↦ e
]

module _ {Row : Type 0} (k : Kind Row) where
  -- Each code and each identifier stands once.
  abbrev pub HasCodes : List Row → Type 0
  HasCodes [] = Unit
  HasCodes (x ∷ xs) = (exists_by_code k (k.code x) xs ≡ false) × HasCodes xs

  pub record IsCoded (s : Nomenclature Row) : Type 0 where
    pub keyed : IsKeyed k.id s.rows
    pub coded : HasCodes s.rows

  -- The change of a row keeps its identifier and its code.
  abbrev pub Keeps : (Row → Row) → Type 0
  Keeps f = (r : Row) → (k.id (f r) ≡ k.id r) × (k.code (f r) ≡ k.code r)

  exists-kept :
      (c : Text) (r old : Row) (rows : List Row)
      → find_by_key k.id (k.id r) rows ≡ some old
      → k.code r ≡ k.code old
      → exists_by_code k c (save k.id r rows) ≡ exists_by_code k c rows
  unfolding exists_by_code
  exists-kept c r old [] h same = cc
  exists-kept c r old (x ∷ xs) h same = elim (Bool-cases (k.id x == k.id r)) [
    | inl e ↦
        let q : x ≡ old = some-injective (rw e at h) in
        let j = same ∙ sym (ap k.code q) in
        rw e (ap (λ d. if text_eq d c then true else any (λ y. text_eq (k.code y) c) xs) j)
    | inr e ↦
        let q = exists-kept c r old xs (rw e at h) same in
        rw e (ap (λ b. if text_eq (k.code x) c then true else b) q)
  ]
    where
      some-injective : {a b : Row} → some a ≡ some b → a ≡ b
      some-injective h = cc

  kept-HasCodes :
      (r old : Row) (rows : List Row)
      → find_by_key k.id (k.id r) rows ≡ some old
      → k.code r ≡ k.code old
      → HasCodes rows
      → HasCodes (save k.id r rows)
  kept-HasCodes r old [] h same coded = cc
  kept-HasCodes r old (x ∷ xs) h same coded = elim (Bool-cases (k.id x == k.id r)) [
    | inl e ↦
        let q : x ≡ old = some-injective (rw e at h) in
        let j = ap k.code q ∙ sym same in
        rw e (subst (λ d. exists_by_code k d xs ≡ false) j coded.0, coded.1)
    | inr e ↦ rw e (
      exists-kept (k.code x) r old xs (rw e at h) same ∙ coded.0,
      kept-HasCodes r old xs (rw e at h) same coded.1,
    )
  ]
    where
      some-injective : {a b : Row} → some a ≡ some b → a ≡ b
      some-injective h = cc

  exists-added :
      (c : Text) (r : Row) (rows : List Row)
      → find_by_key k.id (k.id r) rows ≡ none
      → exists_by_code k c rows ≡ false
      → text_eq (k.code r) c ≡ false
      → exists_by_code k c (save k.id r rows) ≡ false
  unfolding exists_by_code
  exists-added c r [] h free other = ground arith
  exists-added c r (x ∷ xs) h free other = ground (arith, exists-added c r xs)

  added-HasCodes :
      (r : Row) (rows : List Row)
      → find_by_key k.id (k.id r) rows ≡ none
      → exists_by_code k (k.code r) rows ≡ false
      → HasCodes rows
      → HasCodes (save k.id r rows)
  unfolding exists_by_code
  added-HasCodes r [] h free coded = (refl, tt)
  added-HasCodes r (x ∷ xs) h free coded = elim (Bool-cases (k.id x == k.id r)) [
    | inl e ↦ let n : some x ≡ none = rw e at h in cc
    | inr e ↦ elim (Bool-cases (text_eq (k.code x) (k.code r))) [
      | inl same ↦ let n : true ≡ false = rw same at free in cc
      | inr other ↦ rw e (
        exists-added (k.code x) r xs (rw e at h) coded.0 (different (k.code x) (k.code r) other),
        added-HasCodes r xs (rw e at h) (rw other at free) coded.1,
      )
    ]
  ]

module _ {Row : Type 0} (k : Kind Row) (s : Nomenclature Row) (h : IsCoded k s) where
  put_kept :
      (r old : Row)
      → find_by_key k.id (k.id r) s.rows ≡ some old
      → k.code r ≡ k.code old
      → IsCoded k (put k r s)
  put_kept r old found same = record {
    keyed = save-IsKeyed k.id r s.rows h.keyed;
    coded = kept-HasCodes k r old s.rows found same h.coded;
  }

  emit-IsCoded :
      (e : NomenclatureEvent) (s' : Nomenclature Row) → IsCoded k s' → IsCoded k (emit k e s')
  emit-IsCoded e s' g = record { keyed = g.keyed; coded = g.coded }

  changed_at :
      (f : Row → Row) (id : ℕ) (r : Row)
      → Keeps k f
      → find_by_key k.id id s.rows ≡ some r
      → IsCoded k (put k (f r) s)
  changed_at f id r keeps found =
      put_kept (f r) r
        (ap (λ i. find_by_key k.id i s.rows)
            ((keeps r).0 ∙ (find_by_key-Member k.id id r s.rows found).1)
          ∙ found)
        (keeps r).1

  pub change_row-IsCoded : (f : Row → Row) (id : ℕ) → Keeps k f → IsCoded k (change_row k f id s).1
  unfolding change_row get_row
  change_row-IsCoded f id keeps =
      or_raise_cases {A = Row} {B = Unit {0}} (λ r. IsCoded k r.1) (find_by_key k.id id s.rows)
        not_found (λ r. modify (put k (f r))) s (λ r found. changed_at f id r keeps found) (λ _. h)

  moved_cases :
      (Post : Result NomenclatureError Row → Type 0) (to : Statut) (now : ℕ) (r : Row)
      → Post (ok (k.with_statut now to r))
      → ((e : NomenclatureError) → Post (err e))
      → Post (move_row k to now r)
  unfolding move_row
  moved_cases Post to now r good bad = done (assert_transition_allowed (k.statut r) to)
    where
      done :
          (a : Result NomenclatureError (Unit {0})) → Post (after_assert a (k.with_statut now to r))
      done (ok _) = good
      done (err e) = bad e

  pub transition_row-IsCoded :
      (to : Statut) (now id : ℕ)
      → Keeps k (k.with_statut now to)
      → IsCoded k (transition_row k to now id s).1
  unfolding transition_row get_row
  transition_row-IsCoded to now id keeps =
      or_raise_cases {A = Row} {B = Unit {0}} (λ r. IsCoded k r.1) (find_by_key k.id id s.rows)
        not_found (λ r. lift (move_row k to now r) >>= λ m. modify (put k m)) s
        (λ r found.
          moved_cases (λ a. IsCoded k ((lift a >>= λ m. modify (put k m)) s).1) to now r
            (changed_at (k.with_statut now to) id r keeps found) (λ _. h))
        (λ _. h)

  pub publish_row-IsCoded :
      (now id : ℕ) → Keeps k (k.with_statut now publie) → IsCoded k (publish_row k now id s).1
  unfolding publish_row get_row
  publish_row-IsCoded now id keeps =
      or_raise_cases {A = Row} {B = Unit {0}} (λ r. IsCoded k r.1) (find_by_key k.id id s.rows)
        not_found
        (λ r. lift (move_row k publie now r) >>= λ m.
          modify (put k m) >> modify (emit k (published (k.id m) (k.code m))))
        s
        (λ r found.
          moved_cases
            (λ a.
              IsCoded k
                ((lift a >>= λ m.
                    modify (put k m) >> modify (emit k (published (k.id m) (k.code m))))
                  s).1)
            publie now r (emit-IsCoded _ _ (changed_at (k.with_statut now publie) id r keeps found))
            (λ _. h))
        (λ _. h)

  pub add_row-IsCoded :
      (code : Text) (made : Result NomenclatureError Row)
      → ((r : Row) → made ≡ ok r → (k.code r ≡ code) × (find_by_key k.id (k.id r) s.rows ≡ none))
      → IsCoded k (add_row k code made s).1
  unfolding add_row
  add_row-IsCoded code made fits = elim (Bool-cases (exists_by_code k code s.rows)) [
    | inl known ↦ rw known h
    | inr free ↦ rw free (
        lift_cases {A = Row} {B = ℕ} (λ r. IsCoded k r.1) made
          (λ r.
            modify (put k r) >> (modify (emit k (created (k.id r) (k.code r))) >> pure (k.id r)))
          s
          (λ r e.
            let (same, absent) = fits r e in
            record {
              keyed = save-IsKeyed k.id r s.rows h.keyed;
              coded =
                  added-HasCodes k r s.rows absent
                    (subst (λ c. exists_by_code k c s.rows ≡ false) (sym same) free) h.coded;
            })
          (λ _ _. h))
  ]
