-- ===== src/Org/Reached.antt =====
-- The registries that sequences of requests lead to, and what a request leaves alone.
use core_kernel.Prelude.{
  ℕ, ◌≡◌, ◌≢◌, refl, sym, subst, inl, inr, Option, none, some, [], Text, given, same?, Result, err,
  if_cases, Option-cases, find_by_key, lift, modify, pure, ◌>>=◌, ◌>>◌,
}
use core_kernel.Common.Forest.{Below-unreferenced}
use core_kernel.Org.Organisation.{
  Organisation, OrganisationError, self_parenting, PartialReferentiel, ReferentielOrganisation,
  create_organisation,
}
use core_kernel.Org.Registry.{
  OrganisationRow, Organisations, OrganisationTask, to_domain_organisation, to_orm_organisation,
  organisation_key, find_organisation, put_organisation, publish, mere_of, organisation_created,
  check_mere, get_organisation, create, update, change_referentiel, reattach, deactivate,
  reactivate,
}
use core_kernel.Org.Filiation.{IsFiliation, put_organisation-IsFiliation}
use core_kernel.Org.Affiliation.{
  publish-IsFiliation, update-IsFiliation, change_referentiel-IsFiliation, deactivate-IsFiliation,
  reactivate-IsFiliation, reattach-IsFiliation,
}

-- An organisation that is read from the row that was written for it is the organisation.
pub to_domain-to_orm : (o : Organisation) → to_domain_organisation (to_orm_organisation o) ≡ o
unfolding to_domain_organisation to_orm_organisation
to_domain-to_orm o = refl

-- A row that is written from the organisation that was read from it is the row.
pub to_orm-to_domain : (r : OrganisationRow) → to_orm_organisation (to_domain_organisation r) ≡ r
unfolding to_domain_organisation to_orm_organisation
to_orm-to_domain r = refl

-- The identifier is new: it is not empty, no organisation has it and none names it as its parent.
pub record IsFresh (id : ℕ) (s : Organisations) : Type 0 where
  pub given_id : id ≢ 0
  pub absent : find_by_key organisation_key id s.organisations ≡ none
  pub unnamed : (x : ℕ) → mere_of s.organisations x ≢ some id

module _ (now id : ℕ) (nom : Text) (mere : Option ℕ) (referentiel : ReferentielOrganisation)
    (s : Organisations) (f : IsFiliation s) (fresh : IsFresh id s) where
  abbrev finish : Organisation → OrganisationTask ℕ
  finish o =
      modify (put_organisation o)
      >> (modify (publish (organisation_created o.id o.organisation_mere_id)) >> pure o.id)

  save_created :
      ((p : ℕ) → given mere ≡ some p → find_by_key organisation_key p s.organisations ≢ none)
      → IsFiliation ((lift (create_organisation now id nom mere referentiel) >>= finish) s).1
  unfolding create_organisation
  save_created known =
      if_cases
        (λ (r : Result OrganisationError Organisation). IsFiliation ((lift r >>= finish) s).1)
        (same? (given mere) (some id)) (err self_parenting) _ (λ _. f)
        (λ _. publish-IsFiliation _ _ (
          put_organisation-IsFiliation _ s f (λ p h r.
            let q = Below-unreferenced (mere_of s.organisations) id fresh.unnamed r in
            known p h (
              subst (λ x. find_by_key organisation_key x s.organisations ≡ none) (sym q)
                fresh.absent))))

  found-some :
      (p : ℕ) (o : Organisation)
      → find_organisation p s.organisations ≡ some o
      → find_by_key organisation_key p s.organisations ≢ none
  found-some p o h n = let k = (rw n at h) in cc

  check_mere_cases :
      (m : Option ℕ) (k : OrganisationTask ℕ)
      → (((p : ℕ) → m ≡ some p → find_by_key organisation_key p s.organisations ≢ none)
          → IsFiliation (k s).1)
      → IsFiliation ((check_mere m >> k) s).1
  unfolding get_organisation
  check_mere_cases none k good = good (λ p h n. cc)
  check_mere_cases (some m) k good = elim (Option-cases (find_organisation m s.organisations)) [
    | inl n ↦ rw n f
    | inr (o, there) ↦ rw there (
        good (λ p h n.
          let q : m ≡ p = cc in
          found-some m o there
            (subst (λ x. find_by_key organisation_key x s.organisations ≡ none) (sym q) n)))
  ]

  -- Creating an organisation under a new identifier keeps the affiliation, whether the request is
  -- accepted or refused.
  pub create-IsFiliation : IsFiliation (create now id nom mere referentiel s).1
  unfolding create get_organisation
  create-IsFiliation =
      check_mere_cases (given mere)
        (lift (create_organisation now id nom mere referentiel) >>= finish) save_created

-- The registries that requests lead to, from one without organisations.
pub data IsServed : Organisations → Type 0 where
  empty : {s : Organisations} → s.organisations ≡ [] → IsServed s
  created :
      {s : Organisations} (now id : ℕ) (nom : Text) (mere : Option ℕ) (r : ReferentielOrganisation)
      → IsFresh id s
      → IsServed s
      → IsServed (create now id nom mere r s).1
  updated :
      {s : Organisations} (now id : ℕ) (nom : Option Text)
      → IsServed s
      → IsServed (update now id nom s).1
  moved :
      {s : Organisations} (now id : ℕ) (u : PartialReferentiel)
      → IsServed s
      → IsServed (change_referentiel now id u s).1
  reattached :
      {s : Organisations} (now id : ℕ) (mere : Option ℕ)
      → IsServed s
      → IsServed (reattach now id mere s).1
  deactivated : {s : Organisations} (now id : ℕ) → IsServed s → IsServed (deactivate now id s).1
  reactivated : {s : Organisations} (now id : ℕ) → IsServed s → IsServed (reactivate now id s).1

-- From a registry without organisations, requests in any order, with new identifiers for the
-- organisations that are created, never lead to two rows of one organisation or to an organisation
-- above itself.
pub served-IsFiliation : {s : Organisations} → IsServed s → IsFiliation s
served-IsFiliation (empty {s = s} e) = record {
  keyed = rw e tt;
  acyclic = λ x y h r. let k = rw e at h in cc;
}
served-IsFiliation (created {s = s} now id nom mere r fresh h) =
    create-IsFiliation now id nom mere r s (served-IsFiliation h) fresh
served-IsFiliation (updated {s = s} now id nom h) =
    update-IsFiliation now id s (served-IsFiliation h) nom
served-IsFiliation (moved {s = s} now id u h) =
    change_referentiel-IsFiliation now id s (served-IsFiliation h) u
served-IsFiliation (reattached {s = s} now id mere h) =
    reattach-IsFiliation now id s (served-IsFiliation h) mere
served-IsFiliation (deactivated {s = s} now id h) =
    deactivate-IsFiliation now id s (served-IsFiliation h)
served-IsFiliation (reactivated {s = s} now id h) =
    reactivate-IsFiliation now id s (served-IsFiliation h)
