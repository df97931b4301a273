-- ===== src/Org/Filiation.antt =====
-- The affiliation of organisations stays free of loops.
use core_kernel.Prelude.{
  ℕ, ◌+◌, ◌≡◌, ◌↔◌, refl, sym, subst, inl, inr, Bool, true, false, Option, none, some, List, [],
  ◌∷◌, arith, length, given, ◌==◌, ==_iff, if◌then◌else◌, Bool-cases, Option-cases, find_by_key,
  save, IsKeyed, find_by_key-save, save-IsKeyed,
}
use core_kernel.Common.Parents.{has_seen, walk}
use core_kernel.Common.Ancestry.{Below, here, Covers, walk-iff_Below}
use core_kernel.Common.Forest.{IsAcyclic, update-IsAcyclic}
use core_kernel.Org.Organisation.{Organisation}
use core_kernel.Org.Registry.{
  OrganisationRow, Organisations, to_orm_organisation, organisation_key, put_organisation, mere_of,
  answered, is_descendant_of, is_descendant_or_self,
}

abbrev ids : List OrganisationRow → List ℕ
ids [] = []
ids (r ∷ rs) = r.id ∷ ids rs

length-ids : (rows : List OrganisationRow) → length (ids rows) ≡ length rows
length-ids [] = refl
length-ids (r ∷ rs) = ground (arith, length-ids rs)

find-seen :
    (c : ℕ) (r : OrganisationRow) (rows : List OrganisationRow)
    → find_by_key organisation_key c rows ≡ some r
    → has_seen c (ids rows) ≡ true
unfolding has_seen
find-seen c r [] h = cc
find-seen c r (x ∷ xs) h = ground (arith, find-seen c r xs)

ids-Covers : (rows : List OrganisationRow) → Covers (ids rows) (mere_of rows)
ids-Covers rows c p h = elim (Option-cases (find_by_key organisation_key c rows)) [
  | inl n ↦ ground arith
  | inr (r, found) ↦ find-seen c r rows found
]

answered_iff : (o : Option Bool) → (answered o ≡ true) ↔ (o ≡ some true)
answered_iff none = (λ h. cc, λ h. cc)
answered_iff (some true) = (λ h. refl, λ h. refl)
answered_iff (some false) = (λ h. cc, λ h. cc)

-- The walk of a registry answers yes exactly if going up from the organisation leads to the ancestor.
pub is_descendant_of-Below :
    (rows : List OrganisationRow) (ancestor id : ℕ)
    → (id == 0) ≡ false
    → (is_descendant_of rows ancestor id ≡ true) ↔ Below (mere_of rows) ancestor id
unfolding is_descendant_of
is_descendant_of-Below rows ancestor id nz =
    let q =
      subst
        (λ n.
          (walk (n + 2) (mere_of rows) ancestor (some id) [] ≡ some true)
          ↔ Below (mere_of rows) ancestor id)
        (length-ids rows)
        (walk-iff_Below (ids rows) (mere_of rows) ancestor id (ids-Covers rows)) in
    let k = answered_iff (walk (length rows + 2) (mere_of rows) ancestor (some id) []) in
    (λ h. q.0 (k.0 (rw nz at h)), λ r. rw nz (k.1 (q.1 r)))

-- For an organisation with an identifier, the port that the other modules ask answers yes exactly if
-- going up from the organisation, in any number of steps or none, leads to the ancestor, whatever
-- loops the table holds.
pub is_descendant_or_self-Below :
    (rows : List OrganisationRow) (id ancestor : ℕ)
    → (id == 0) ≡ false
    → (is_descendant_or_self rows id ancestor ≡ true) ↔ Below (mere_of rows) ancestor id
unfolding is_descendant_or_self
is_descendant_or_self-Below rows id ancestor nz = elim (Bool-cases (id == ancestor)) [
  | inl same ↦
      let q : id ≡ ancestor = (==_iff id ancestor).0 same in
      (λ h. subst (Below (mere_of rows) ancestor) (sym q) here, λ r. rw same refl)
  | inr other ↦
      let k = is_descendant_of-Below rows ancestor id nz in
      (λ h. k.0 (rw other at h), λ r. rw other (k.1 r))
]

-- One row for each organisation, and no organisation above itself.
pub record IsFiliation (s : Organisations) : Type 0 where
  pub keyed : IsKeyed organisation_key s.organisations
  pub acyclic : IsAcyclic (mere_of s.organisations)

mere_of-save :
    (r : OrganisationRow) (rows : List OrganisationRow) (x : ℕ)
    → mere_of (save organisation_key r rows) x
      ≡ (if r.id == x then given r.organisation_mere_id else mere_of rows x)
mere_of-save r rows x =
    let q = find_by_key-save organisation_key x r rows in
    elim (Bool-cases (r.id == x)) [ inl e ↦ simp (q, e) | inr e ↦ simp (q, e) ]

-- To save an organisation whose parent does not lie below it.
pub put_organisation-IsFiliation :
    (o : Organisation) (s : Organisations)
    → IsFiliation s
    → ((p : ℕ) → given o.organisation_mere_id ≡ some p → Below (mere_of s.organisations) o.id p → ⊥)
    → IsFiliation (put_organisation o s)
unfolding put_organisation to_orm_organisation
put_organisation-IsFiliation o s f clear =
    let row = to_orm_organisation o in
    record {
      keyed = save-IsKeyed organisation_key row s.organisations f.keyed;
      acyclic =
          update-IsAcyclic o.id (given o.organisation_mere_id) (mere_of s.organisations)
            (mere_of (save organisation_key row s.organisations))
            (
              let c = mere_of-save row s.organisations o.id in ground arith,
              λ x off. let c = mere_of-save row s.organisations x in ground arith,
            )
            clear f.acyclic;
    }
