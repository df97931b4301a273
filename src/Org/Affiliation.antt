-- ===== src/Org/Affiliation.antt =====
-- What the use cases do to the affiliation of organisations, in whatever order they are called.
use core_kernel.Prelude.{
  ℕ, ◌≡◌, refl, sym, ap, subst, ◌∙◌, inl, inr, true, false, Option, none, some, List, Text, arith,
  given, same?, Result, ◌==◌, Bool-cases, Option-cases, find_by_key, find_by_key-Member,
  or_raise_cases, lift, modify, ◌>>=◌, ◌>>◌,
}
use core_kernel.Common.Ancestry.{Below}
use core_kernel.Org.Organisation.{
  Organisation, OrganisationError, organisation_not_found, PartialReferentiel, reattach_to_parent,
  update_details, update_referentiel, set_activation,
}
use core_kernel.Org.Registry.{
  OrganisationRow, Organisations, OrganisationTask, OrganisationEvent, to_domain_organisation,
  organisation_key, find_organisation, put_organisation, publish, mere_of, is_descendant_of,
  organisation_reattached, organisation_referentiel_updated, organisation_deactivated,
  check_nouvelle_mere, get_organisation, update, change_referentiel, reattach, deactivate,
  reactivate,
}
use core_kernel.Org.Filiation.{IsFiliation, put_organisation-IsFiliation, is_descendant_of-Below}

-- What is found by an identifier has it, and its parent is the one that the walk goes to.
found_row :
    (id : ℕ) (o : Organisation) (rows : List OrganisationRow)
    → find_organisation id rows ≡ some o
    → (o.id ≡ id) × (mere_of rows id ≡ given o.organisation_mere_id)
unfolding to_domain_organisation
found_row id o rows h = elim (Option-cases (find_by_key organisation_key id rows)) [
  | inl n ↦ ground arith
  | inr (row, found) ↦
      let q = (find_by_key-Member organisation_key id row rows found).1 in
      let e : to_domain_organisation row ≡ o = some-injective (rw found at h) in
      (sym (ap (λ x. x.id) e) ∙ q, rw found (ap (λ x. given x.organisation_mere_id) e))
]
  where
    some-injective : {a b : Organisation} → some a ≡ some b → a ≡ b
    some-injective h = cc

-- To save an organisation that keeps its identifier and its parent.
kept-IsFiliation :
    (id : ℕ) (o changed : Organisation) (s : Organisations)
    → IsFiliation s
    → find_organisation id s.organisations ≡ some o
    → changed.id ≡ o.id
    → changed.organisation_mere_id ≡ o.organisation_mere_id
    → IsFiliation (put_organisation changed s)
kept-IsFiliation id o changed s f found same_id same_mere =
    let (i, m) = found_row id o s.organisations found in
    put_organisation-IsFiliation changed s f (λ p h r.
      let k : mere_of s.organisations changed.id ≡ some p =
        ap (mere_of s.organisations) (same_id ∙ i) ∙ m ∙ sym (ap given same_mere) ∙ h in
      f.acyclic changed.id p k r)

pub publish-IsFiliation :
    (e : OrganisationEvent) (s : Organisations) → IsFiliation s → IsFiliation (publish e s)
publish-IsFiliation e s f = record { keyed = f.keyed; acyclic = f.acyclic }

module _ (now id : ℕ) (s : Organisations) (f : IsFiliation s) where
  abbrev Keeps : Result OrganisationError (Unit {0}) × Organisations → Type 0
  Keeps r = IsFiliation r.1

  pub update-IsFiliation : (nom : Option Text) → IsFiliation (update now id nom s).1
  unfolding update get_organisation update_details
  update-IsFiliation nom =
      or_raise_cases {A = Organisation} {B = Unit {0}} Keeps (find_organisation id s.organisations)
        organisation_not_found (λ o. modify (put_organisation (update_details now nom o))) s
        (λ o found. kept-IsFiliation id o (update_details now nom o) s f found refl refl) (λ _. f)

  pub change_referentiel-IsFiliation :
      (u : PartialReferentiel) → IsFiliation (change_referentiel now id u s).1
  unfolding change_referentiel get_organisation update_referentiel
  change_referentiel-IsFiliation u =
      or_raise_cases {A = Organisation} {B = Unit {0}} Keeps (find_organisation id s.organisations)
        organisation_not_found
        (λ o.
          modify (put_organisation (update_referentiel now u o))
          >> modify (publish (organisation_referentiel_updated id u)))
        s
        (λ o found.
          publish-IsFiliation (organisation_referentiel_updated id u) _
            (kept-IsFiliation id o (update_referentiel now u o) s f found refl refl))
        (λ _. f)

  pub deactivate-IsFiliation : IsFiliation (deactivate now id s).1
  unfolding deactivate get_organisation set_activation
  deactivate-IsFiliation =
      or_raise_cases {A = Organisation} {B = Unit {0}} Keeps (find_organisation id s.organisations)
        organisation_not_found
        (λ o.
          modify (put_organisation (set_activation now false o))
          >> modify (publish (organisation_deactivated id)))
        s
        (λ o found.
          publish-IsFiliation (organisation_deactivated id) _
            (kept-IsFiliation id o (set_activation now false o) s f found refl refl))
        (λ _. f)

  pub reactivate-IsFiliation : IsFiliation (reactivate now id s).1
  unfolding reactivate get_organisation set_activation
  reactivate-IsFiliation =
      or_raise_cases {A = Organisation} {B = Unit {0}} Keeps (find_organisation id s.organisations)
        organisation_not_found (λ o. modify (put_organisation (set_activation now true o))) s
        (λ o found. kept-IsFiliation id o (set_activation now true o) s f found refl refl) (λ _. f)

  save_reattached :
      (mere : Option ℕ) (o : Organisation)
      → find_organisation id s.organisations ≡ some o
      → ((p : ℕ) → given mere ≡ some p → Below (mere_of s.organisations) o.id p → ⊥)
      → IsFiliation
          ((lift (reattach_to_parent now mere o) >>= λ changed.
              modify (put_organisation changed)
              >> modify (publish (organisation_reattached id mere)))
            s).1
  unfolding reattach_to_parent
  save_reattached mere o found clear = elim (Bool-cases (same? mere (some o.id))) [
    | inl self ↦ rw self f
    | inr other ↦ rw other (
        publish-IsFiliation (organisation_reattached id mere) _ (
          put_organisation-IsFiliation (record o { organisation_mere_id = mere; modifie_le = now })
            s f clear))
  ]

  check_cases :
      (o : Organisation) (m : Option ℕ) (k : OrganisationTask (Unit {0}))
      → find_organisation id s.organisations ≡ some o
      → (((p : ℕ) → m ≡ some p → (p == 0) ≡ false → Below (mere_of s.organisations) o.id p → ⊥)
          → IsFiliation (k s).1)
      → IsFiliation ((check_nouvelle_mere id m >> k) s).1
  unfolding get_organisation
  check_cases o none k found good = good (λ p h. cc)
  check_cases o (some m) k found good = elim (Option-cases (find_organisation m s.organisations)) [
    | inl n ↦ rw n f
    | inr (mere, there) ↦ elim (Bool-cases (is_descendant_of s.organisations id m)) [
      | inl cycle ↦ rw there (rw cycle f)
      | inr free ↦ rw there (
          rw free (
            good (λ p h nz r.
              let q : m ≡ p = cc in
              let i = (found_row id o s.organisations found).0 in
              let below =
                (is_descendant_of-Below s.organisations id p nz).1
                  (subst (λ x. Below (mere_of s.organisations) x p) i r) in
              cc)))
    ]
  ]

  given-nonzero : (m : Option ℕ) (p : ℕ) → given m ≡ some p → (p == 0) ≡ false
  given-nonzero none p h = cc
  given-nonzero (some m) p h = ground arith

  -- Reattaching an organisation keeps the affiliation, whether the request is accepted or refused.
  pub reattach-IsFiliation : (mere : Option ℕ) → IsFiliation (reattach now id mere s).1
  unfolding reattach get_organisation
  reattach-IsFiliation mere =
      let finish : Organisation → OrganisationTask (Unit {0}) = λ o.
        lift (reattach_to_parent now mere o) >>= λ changed.
        modify (put_organisation changed) >> modify (publish (organisation_reattached id mere)) in
      or_raise_cases {A = Organisation} {B = Unit {0}} Keeps (find_organisation id s.organisations)
        organisation_not_found (λ o. check_nouvelle_mere id (given mere) >> finish o) s
        (λ o found.
          check_cases o (given mere) (finish o) found
            (λ clear. save_reattached mere o found (λ p h. clear p h (given-nonzero mere p h))))
        (λ _. f)
