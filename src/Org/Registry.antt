-- ===== src/Org/Registry.antt =====
-- The use cases on organisations and units
-- (src/org/application/use-cases/organisation.use-cases.ts and unite-operationnelle.use-cases.ts) and
-- their tables (src/org/infrastructure/persistence/typeorm/orm-repositories.ts).
use core_kernel.Prelude.{
  given, ℕ, ◌+◌, Bool, true, false, Option, none, some, List, [], ◌∷◌, Text, length, filter, same?,
  ◌==◌, if◌then◌else◌, find_by_key, save, Action, pure, gets, or_raise, lift, modify, raise_if,
  ◌>>=◌, ◌>>◌,
}
use core_kernel.Common.Parents.{walk}
use core_kernel.Org.Organisation.{
  ReferentielOrganisation, PartialReferentiel, Organisation, OrganisationError,
  organisation_not_found, circular_parenting, unite_operationnelle_not_found, create_organisation,
  update_details, update_referentiel, reattach_to_parent, set_activation, UniteOperationnelle,
  create_unite, update_unite_referentiel, set_unite_activation,
}

-- `OrganisationOrmEntity`: the reference data in columns of its own.
pub record OrganisationRow : Type 0 where
  pub id : ℕ
  pub nom : Text
  pub organisation_mere_id : Option ℕ
  pub pays_id : Option ℕ
  pub unite_administrative_id : Option ℕ
  pub ville_id : Option ℕ
  pub devise_id : Option ℕ
  pub langue_id : Option ℕ
  pub fuseau_horaire : Option Text
  pub est_actif : Bool
  pub cree_le : ℕ
  pub modifie_le : ℕ

unfoldable pub to_domain_organisation : OrganisationRow → Organisation
to_domain_organisation row = record {
  id = row.id;
  nom = row.nom;
  organisation_mere_id = row.organisation_mere_id;
  referentiel = record {
    pays_id = row.pays_id;
    unite_administrative_id = row.unite_administrative_id;
    ville_id = row.ville_id;
    devise_id = row.devise_id;
    langue_id = row.langue_id;
    fuseau_horaire = row.fuseau_horaire;
  };
  est_actif = row.est_actif;
  cree_le = row.cree_le;
  modifie_le = row.modifie_le;
}

unfoldable pub to_orm_organisation : Organisation → OrganisationRow
to_orm_organisation o = record {
  id = o.id;
  nom = o.nom;
  organisation_mere_id = o.organisation_mere_id;
  pays_id = o.referentiel.pays_id;
  unite_administrative_id = o.referentiel.unite_administrative_id;
  ville_id = o.referentiel.ville_id;
  devise_id = o.referentiel.devise_id;
  langue_id = o.referentiel.langue_id;
  fuseau_horaire = o.referentiel.fuseau_horaire;
  est_actif = o.est_actif;
  cree_le = o.cree_le;
  modifie_le = o.modifie_le;
}

pub data OrganisationEvent : Type 0 where
  organisation_created : ℕ → Option ℕ → OrganisationEvent
  organisation_referentiel_updated : ℕ → PartialReferentiel → OrganisationEvent
  organisation_reattached : ℕ → Option ℕ → OrganisationEvent
  organisation_deactivated : ℕ → OrganisationEvent
  unite_operationnelle_created : ℕ → ℕ → Text → OrganisationEvent

pub record Organisations : Type 0 where
  pub organisations : List OrganisationRow
  pub unites : List UniteOperationnelle
  pub events : List OrganisationEvent

abbrev pub OrganisationTask : Type 0 → Type 0
OrganisationTask A = Action Organisations OrganisationError A

abbrev pub organisation_key : OrganisationRow → ℕ
organisation_key o = o.id

abbrev pub unite_key : UniteOperationnelle → ℕ
unite_key x = x.id

abbrev pub organisation_of : Option OrganisationRow → Option Organisation
organisation_of none = none
organisation_of (some row) = some (to_domain_organisation row)

-- `findById`
abbrev pub find_organisation : ℕ → List OrganisationRow → Option Organisation
find_organisation id rows = organisation_of (find_by_key organisation_key id rows)

-- `save`
unfoldable pub put_organisation : Organisation → Organisations → Organisations
put_organisation o s = record s {
  organisations = save organisation_key (to_orm_organisation o) s.organisations;
}

abbrev pub put_unite : UniteOperationnelle → Organisations → Organisations
put_unite x s = record s { unites = save unite_key x s.unites }

abbrev pub publish : OrganisationEvent → Organisations → Organisations
publish e s = record s { events = e ∷ s.events }

-- The parent of a row that is there; an empty identifier ends the walk as a missing one does.
abbrev pub mere_of_row : Option OrganisationRow → Option ℕ
mere_of_row none = none
mere_of_row (some row) = given row.organisation_mere_id

abbrev pub mere_of : List OrganisationRow → ℕ → Option ℕ
mere_of rows id = mere_of_row (find_by_key organisation_key id rows)

abbrev pub answered : Option Bool → Bool
answered (some true) = true
answered _ = false

-- `isDescendantOf`, with fuel for one visit of each row and two more steps
unfoldable pub is_descendant_of : List OrganisationRow → ℕ → ℕ → Bool
is_descendant_of rows candidate_ancestor_id organisation_id =
    answered (
      walk (length rows + 2) (mere_of rows) candidate_ancestor_id (given (some organisation_id)) [])

-- `OrganisationLookupAdapter.isDescendantOrSelf`
unfoldable pub is_descendant_or_self : List OrganisationRow → ℕ → ℕ → Bool
unfolding is_descendant_of
is_descendant_or_self rows organisation_id ancestor_organisation_id =
    if organisation_id == ancestor_organisation_id
    then true
    else is_descendant_of rows ancestor_organisation_id organisation_id

abbrev pub is_active : Option Organisation → Bool
is_active none = false
is_active (some o) = o.est_actif

-- `OrganisationLookupAdapter.existsAndActive`
unfoldable pub exists_and_active : List OrganisationRow → ℕ → Bool
exists_and_active rows gsg_org_id = is_active (find_organisation gsg_org_id rows)

-- `findById`, `if (!organisation) throw`
unfoldable pub get_organisation : ℕ → OrganisationTask Organisation
get_organisation id = do
  found ← gets (λ s. find_organisation id s.organisations)
  or_raise found organisation_not_found

abbrev pub check_mere : Option ℕ → OrganisationTask (Unit {0})
check_mere none = pure tt
check_mere (some mere) = get_organisation mere >>= λ _. pure tt

-- `CreateOrganisationUseCase.execute`
unfoldable pub create : ℕ → ℕ → Text → Option ℕ → ReferentielOrganisation → OrganisationTask ℕ
unfolding get_organisation
create now id nom mere referentiel = do
  check_mere (given mere)
  organisation ← lift (create_organisation now id nom mere referentiel)
  modify (put_organisation organisation)
  modify (publish (organisation_created organisation.id organisation.organisation_mere_id))
  pure organisation.id

-- `UpdateOrganisationUseCase.execute`
unfoldable pub update : ℕ → ℕ → Option Text → OrganisationTask (Unit {0})
unfolding get_organisation
update now id nom = do
  organisation ← get_organisation id
  modify (put_organisation (update_details now nom organisation))

-- `UpdateOrganisationReferentielUseCase.execute`
unfoldable pub change_referentiel : ℕ → ℕ → PartialReferentiel → OrganisationTask (Unit {0})
unfolding get_organisation
change_referentiel now id referentiel = do
  organisation ← get_organisation id
  modify (put_organisation (update_referentiel now referentiel organisation))
  modify (publish (organisation_referentiel_updated id referentiel))

abbrev pub check_nouvelle_mere : ℕ → Option ℕ → OrganisationTask (Unit {0})
check_nouvelle_mere organisation_id none = pure tt
check_nouvelle_mere organisation_id (some mere) = do
  _ ← get_organisation mere
  creerait_un_cycle ← gets (λ s. is_descendant_of s.organisations organisation_id mere)
  raise_if creerait_un_cycle circular_parenting

-- `ReattachOrganisationUseCase.execute`
unfoldable pub reattach : ℕ → ℕ → Option ℕ → OrganisationTask (Unit {0})
unfolding get_organisation is_descendant_of
reattach now organisation_id mere = do
  organisation ← get_organisation organisation_id
  check_nouvelle_mere organisation_id (given mere)
  changed ← lift (reattach_to_parent now mere organisation)
  modify (put_organisation changed)
  modify (publish (organisation_reattached organisation_id mere))

-- `SetOrganisationActivationUseCase`
unfoldable pub deactivate : ℕ → ℕ → OrganisationTask (Unit {0})
unfolding get_organisation
deactivate now id = do
  organisation ← get_organisation id
  modify (put_organisation (set_activation now false organisation))
  modify (publish (organisation_deactivated id))

unfoldable pub reactivate : ℕ → ℕ → OrganisationTask (Unit {0})
unfolding get_organisation
reactivate now id = do
  organisation ← get_organisation id
  modify (put_organisation (set_activation now true organisation))

-- `findByOrganisationMere`
unfoldable pub find_filiales : ℕ → List OrganisationRow → List OrganisationRow
find_filiales mere = filter (λ o. same? o.organisation_mere_id (some mere))

-- `CreateUniteOperationnelleUseCase.execute`
unfoldable pub create_unite_of : ℕ → ℕ → ℕ → Text → ReferentielOrganisation → OrganisationTask ℕ
unfolding get_organisation
create_unite_of now id organisation_id nom referentiel = do
  _ ← get_organisation organisation_id
  modify (put_unite (create_unite now id organisation_id nom referentiel))
  modify (publish (unite_operationnelle_created id organisation_id nom))
  pure id

unfoldable pub get_unite : ℕ → OrganisationTask UniteOperationnelle
get_unite id = do
  found ← gets (λ s. find_by_key unite_key id s.unites)
  or_raise found unite_operationnelle_not_found

-- `UpdateUniteOperationnelleReferentielUseCase.execute`
unfoldable pub change_unite_referentiel : ℕ → ℕ → PartialReferentiel → OrganisationTask (Unit {0})
unfolding get_unite
change_unite_referentiel now id referentiel = do
  unite ← get_unite id
  modify (put_unite (update_unite_referentiel now referentiel unite))

-- `SetUniteOperationnelleActivationUseCase`: `deactivate` and `reactivate`
unfoldable pub activate_unite : ℕ → ℕ → Bool → OrganisationTask (Unit {0})
unfolding get_unite
activate_unite now id est_actif = do
  unite ← get_unite id
  modify (put_unite (set_unite_activation now est_actif unite))
