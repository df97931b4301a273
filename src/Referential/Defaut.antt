-- ===== src/Referential/Defaut.antt =====
-- There is at most one default locale, and what is chosen for a language and a country.
use core_kernel.Prelude.{
  ℕ, ◌≤◌, ◌≡◌, refl, sym, ap, subst, ◌∙◌, inl, inr, Bool, true, false, Option, none, some, List, [],
  ◌∷◌, Text, arith, ◌==◌, ==_iff, ==_refl, if◌then◌else◌, if_cases, Bool-cases, Option-cases,
  find?-Member, find_by_key, save, IsKeyed, find_by_key-save, save-IsKeyed, find_by_key-Member,
  Member-find_by_key, Member, total, total-added, total-changed, Member-total, Result,
  or_raise_cases, raise_if_cases, lift, modify, pure, ◌>>=◌, ◌>>◌, is_some, trim,
}
use core_kernel.Referential.Locale.{
  Locale, Locales, LocaleError, LocaleTask, locale_created, locale_key, locale_not_found,
  locale_code_already_exists, is_bcp47, create_locale, update_libelle, set_defaut, activate_locale,
  put_locale, find_by_code, find_par_defaut, get_locale, add_locale, rename_locale, clear_defaut,
  set_par_defaut, set_locale_activation,
}

abbrev pub mark : Locale → ℕ
mark l = if l.est_par_defaut then 1 else 0

-- One row for each locale, and at most one of them the default.
pub record IsUnique (s : Locales) : Type 0 where
  pub keyed : IsKeyed locale_key s.locales
  pub one : total mark s.locales ≤ 1

unmarked : (ls : List Locale) → find_par_defaut ls ≡ none → total mark ls ≡ 0
unfolding find_par_defaut
unmarked [] h = refl
unmarked (l ∷ ls) h = ground (arith, unmarked ls)

-- To save a locale that keeps its mark.
kept-IsUnique :
    (l old : Locale) (s : Locales)
    → IsUnique s
    → find_by_key locale_key l.id s.locales ≡ some old
    → l.est_par_defaut ≡ old.est_par_defaut
    → IsUnique (put_locale l s)
unfolding put_locale
kept-IsUnique l old s h found same = record {
  keyed = save-IsKeyed locale_key l s.locales h.keyed;
  one =
      let o = h.one in
      let e = ap {B = ℕ} (λ b. if b then 1 else 0) same in
      let k = total-changed mark locale_key l old s.locales found in omega (arith, o, e, k);
}

at_id :
    (id : ℕ) (l : Locale) (s : Locales)
    → find_by_key locale_key id s.locales ≡ some l
    → find_by_key locale_key l.id s.locales ≡ some l
at_id id l s found =
    ap (λ i. find_by_key locale_key i s.locales)
      (find_by_key-Member locale_key id l s.locales found).1
    ∙ found

marked_default :
    (d : Locale) (ls : List Locale)
    → find_par_defaut ls ≡ some d
    → Member d ls × (d.est_par_defaut ≡ true)
unfolding find_par_defaut
marked_default d ls e = find?-Member (λ l. l.est_par_defaut) d ls e

some-injective : {a b : Locale} → some a ≡ some b → a ≡ b
some-injective h = cc

-- After the former default was cleared no other locale than the new one is marked, and the new one is
-- where it was.
cleared :
    (now id : ℕ) (l : Locale) (s : Locales)
    → IsUnique s
    → find_by_key locale_key id s.locales ≡ some l
    → let s' = clear_defaut now id (find_par_defaut s.locales) s in
      IsKeyed locale_key s'.locales
      × (find_by_key locale_key id s'.locales ≡ some l)
      × (total mark s'.locales ≡ mark l)
unfolding put_locale set_defaut
cleared now id l s h found = elim (Option-cases (find_par_defaut s.locales)) [
  | inl n ↦
      let zero_marks = unmarked s.locales n in
      let small =
        Member-total mark l s.locales (find_by_key-Member locale_key id l s.locales found).0 in
      rw n (h.keyed, found, omega (arith, zero_marks, small))
  | inr (d, e) ↦
      let (member, marked) = marked_default d s.locales e in
      let at_d = Member-find_by_key locale_key d s.locales h.keyed member in
      let high = Member-total mark d s.locales member in
      let low = h.one in
      let mark_d : mark d ≡ 1 = rw marked refl in
      elim (Bool-cases (d.id == id)) [
        | inl same ↦
            let d_l : d ≡ l = some-injective (
              sym at_d
              ∙ ap (λ i. find_by_key locale_key i s.locales) ((==_iff d.id id).0 same)
              ∙ found) in
            let k = ap mark d_l in
            rw e (rw same (h.keyed, found, omega (arith, high, low, mark_d, k)))
        | inr other ↦
            let d' = set_defaut now false d in
            let there : find_by_key locale_key id (save locale_key d' s.locales) ≡ some l =
              find_by_key-save locale_key id d' s.locales ∙ rw other found in
            let k = total-changed mark locale_key d' d s.locales at_d in
            let small =
              Member-total mark l (save locale_key d' s.locales)
                (find_by_key-Member locale_key id l (save locale_key d' s.locales) there).0 in
            rw e (
              rw other (
                save-IsKeyed locale_key d' s.locales h.keyed,
                there,
                omega (arith, k, low, mark_d, small),
              ))
      ]
]

-- A default that is set.
marked-IsUnique :
    (now id : ℕ) (l : Locale) (s : Locales)
    → IsKeyed locale_key s.locales
    → find_by_key locale_key id s.locales ≡ some l
    → total mark s.locales ≡ mark l
    → let s' = put_locale (set_defaut now true l) s in
      IsUnique s'
      × (total mark s'.locales ≡ 1)
      × (find_by_key locale_key id s'.locales ≡ some (set_defaut now true l))
unfolding put_locale set_defaut
marked-IsUnique now id l s keyed found sum =
    let l' = set_defaut now true l in
    let i = (find_by_key-Member locale_key id l s.locales found).1 in
    let k = total-changed mark locale_key l' l s.locales (at_id id l s found) in
    (
      record { keyed = save-IsKeyed locale_key l' s.locales keyed; one = omega (arith, k, sum) },
      omega (arith, k, sum),
      subst (λ x. find_by_key locale_key x (save locale_key l' s.locales) ≡ some l') i
          (find_by_key-save locale_key l.id l' s.locales ∙ rw (==_refl l.id) refl),
    )

module _ (now id : ℕ) (s : Locales) (h : IsUnique s) where
  rename_locale-IsUnique : (libelle : Option Text) → IsUnique (rename_locale now id libelle s).1
  unfolding rename_locale get_locale update_libelle
  rename_locale-IsUnique libelle =
      or_raise_cases {A = Locale} {B = Unit {0}} (λ r. IsUnique r.1)
        (find_by_key locale_key id s.locales) locale_not_found
        (λ l. modify (put_locale (update_libelle now libelle l))) s
        (λ l found. kept-IsUnique (update_libelle now libelle l) l s h (at_id id l s found) refl)
        (λ _. h)

  set_locale_activation-IsUnique :
      (est_actif : Bool) → IsUnique (set_locale_activation now id est_actif s).1
  unfolding set_locale_activation get_locale activate_locale
  set_locale_activation-IsUnique est_actif =
      or_raise_cases {A = Locale} {B = Unit {0}} (λ r. IsUnique r.1)
        (find_by_key locale_key id s.locales) locale_not_found
        (λ l. modify (put_locale (activate_locale now est_actif l))) s
        (λ l found. kept-IsUnique (activate_locale now est_actif l) l s h (at_id id l s found) refl)
        (λ _. h)

  set_par_defaut-IsUnique : IsUnique (set_par_defaut now id s).1
  unfolding set_par_defaut get_locale
  set_par_defaut-IsUnique =
      or_raise_cases {A = Locale} {B = Unit {0}} (λ r. IsUnique r.1)
        (find_by_key locale_key id s.locales) locale_not_found
        (λ l.
          modify (λ t. clear_defaut now id (find_par_defaut t.locales) t)
          >> modify (put_locale (set_defaut now true l)))
        s
        (λ l found.
          let (keyed, there, sum) = cleared now id l s h found in
          (marked-IsUnique now id l (clear_defaut now id (find_par_defaut s.locales) s) keyed there
            sum).0)
        (λ _. h)

  add_locale-IsUnique :
      (code libelle : Text)
      → find_by_key locale_key id s.locales ≡ none
      → IsUnique (add_locale now id code libelle s).1
  unfolding add_locale create_locale put_locale
  add_locale-IsUnique code libelle absent =
      let finish : Locale → LocaleTask ℕ = λ l.
        modify (put_locale l)
        >> (modify (λ t. record t { events = locale_created id code ∷ t.events }) >> pure id) in
      raise_if_cases {B = ℕ} (λ r. IsUnique r.1) (is_some (find_by_code code s.locales))
        (locale_code_already_exists code) (lift (create_locale now id code libelle) >>= finish) s
        (λ _.
          if_cases (λ (r : Result LocaleError Locale). IsUnique ((lift r >>= finish) s).1)
            (is_bcp47 code) _ _
            (λ _.
              let l' : Locale = record {
                id = id;
                code = code;
                libelle = trim libelle;
                est_par_defaut = false;
                est_actif = true;
                cree_le = now;
                modifie_le = now;
              } in
              record {
                keyed = save-IsKeyed locale_key l' s.locales h.keyed;
                one =
                    let o = h.one in
                    omega (arith, o, total-added mark locale_key l' s.locales absent);
              })
            (λ _. h))
        (λ _. h)

-- To make a locale the default leaves exactly one default, that one, whatever was the default before,
-- if at most one was.
pub set_par_defaut_one :
    (now id : ℕ) (l : Locale) (s : Locales)
    → IsUnique s
    → find_by_key locale_key id s.locales ≡ some l
    → (total mark (set_par_defaut now id s).1.locales ≡ 1)
      × (find_by_key locale_key id (set_par_defaut now id s).1.locales
          ≡ some (set_defaut now true l))
unfolding set_par_defaut get_locale
set_par_defaut_one now id l s h found =
    let (keyed, there, sum) = cleared now id l s h found in
    let (_, one, at) =
      marked-IsUnique now id l (clear_defaut now id (find_par_defaut s.locales) s) keyed there
        sum in
    rw found (one, at)

-- The locales that requests lead to, from none.
pub data IsListed : Locales → Type 0 where
  empty : {s : Locales} → s.locales ≡ [] → IsListed s
  added :
      {s : Locales} (now id : ℕ) (code libelle : Text)
      → find_by_key locale_key id s.locales ≡ none
      → IsListed s
      → IsListed (add_locale now id code libelle s).1
  renamed :
      {s : Locales} (now id : ℕ) (libelle : Option Text)
      → IsListed s
      → IsListed (rename_locale now id libelle s).1
  chosen : {s : Locales} (now id : ℕ) → IsListed s → IsListed (set_par_defaut now id s).1
  activated :
      {s : Locales} (now id : ℕ) (est_actif : Bool)
      → IsListed s
      → IsListed (set_locale_activation now id est_actif s).1

-- From a table without locales, requests in any order, with new identifiers for the locales that are
-- created, never lead to two default locales.
pub listed-IsUnique : {s : Locales} → IsListed s → IsUnique s
listed-IsUnique (empty {s = s} e) = record { keyed = rw e tt; one = rw e (omega arith) }
listed-IsUnique (added {s = s} now id code libelle absent h) =
    add_locale-IsUnique now id s (listed-IsUnique h) code libelle absent
listed-IsUnique (renamed {s = s} now id libelle h) =
    rename_locale-IsUnique now id s (listed-IsUnique h) libelle
listed-IsUnique (chosen {s = s} now id h) = set_par_defaut-IsUnique now id s (listed-IsUnique h)
listed-IsUnique (activated {s = s} now id est_actif h) =
    set_locale_activation-IsUnique now id s (listed-IsUnique h) est_actif
