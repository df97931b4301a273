-- ===== src/Org/Organisation.antt =====
-- Organisations and their operational units (src/org/domain/entities/organisation.entity.ts and
-- unite-operationnelle.entity.ts).
use core_kernel.Prelude.{
  given, ℕ, Bool, true, Option, some, Text, trim, or_else, same?, Result, ok, err, if◌then◌else◌,
}

pub record ReferentielOrganisation : Type 0 where
  pub pays_id : Option ℕ
  pub unite_administrative_id : Option ℕ
  pub ville_id : Option ℕ
  pub devise_id : Option ℕ
  pub langue_id : Option ℕ
  pub fuseau_horaire : Option Text

-- `Partial<ReferentielOrganisation>`: an absent field keeps its value.
pub record PartialReferentiel : Type 0 where
  pub pays_id : Option (Option ℕ)
  pub unite_administrative_id : Option (Option ℕ)
  pub ville_id : Option (Option ℕ)
  pub devise_id : Option (Option ℕ)
  pub langue_id : Option (Option ℕ)
  pub fuseau_horaire : Option (Option Text)

-- `{ ...referentiel, ...updates }`
unfoldable pub merge_referentiel :
    PartialReferentiel → ReferentielOrganisation → ReferentielOrganisation
merge_referentiel u r = record {
  pays_id = or_else u.pays_id r.pays_id;
  unite_administrative_id = or_else u.unite_administrative_id r.unite_administrative_id;
  ville_id = or_else u.ville_id r.ville_id;
  devise_id = or_else u.devise_id r.devise_id;
  langue_id = or_else u.langue_id r.langue_id;
  fuseau_horaire = or_else u.fuseau_horaire r.fuseau_horaire;
}

pub record Organisation : Type 0 where
  pub id : ℕ
  pub nom : Text
  pub organisation_mere_id : Option ℕ
  pub referentiel : ReferentielOrganisation
  pub est_actif : Bool
  pub cree_le : ℕ
  pub modifie_le : ℕ

pub data OrganisationError : Type 0 where
  self_parenting : OrganisationError
  circular_parenting : OrganisationError
  organisation_not_found : OrganisationError
  unite_operationnelle_not_found : OrganisationError

-- `Organisation.create`
unfoldable pub create_organisation :
    ℕ → ℕ → Text → Option ℕ → ReferentielOrganisation → Result OrganisationError Organisation
create_organisation now id nom mere referentiel =
    if same? (given mere) (some id)
    then err self_parenting
    else ok (record {
      id = id;
      nom = trim nom;
      organisation_mere_id = mere;
      referentiel = referentiel;
      est_actif = true;
      cree_le = now;
      modifie_le = now;
    })

unfoldable pub update_details : ℕ → Option Text → Organisation → Organisation
update_details now nom o = record o { nom = or_else nom o.nom; modifie_le = now }

unfoldable pub update_referentiel : ℕ → PartialReferentiel → Organisation → Organisation
update_referentiel now u o = record o {
  referentiel = merge_referentiel u o.referentiel;
  modifie_le = now;
}

-- `reattachToParent`
unfoldable pub reattach_to_parent :
    ℕ → Option ℕ → Organisation → Result OrganisationError Organisation
reattach_to_parent now mere o =
    if same? mere (some o.id)
    then err self_parenting
    else ok (record o { organisation_mere_id = mere; modifie_le = now })

-- `deactivate` and `reactivate`
unfoldable pub set_activation : ℕ → Bool → Organisation → Organisation
set_activation now est_actif o = record o { est_actif = est_actif; modifie_le = now }

pub record UniteOperationnelle : Type 0 where
  pub id : ℕ
  pub organisation_id : ℕ
  pub nom : Text
  pub referentiel : ReferentielOrganisation
  pub est_actif : Bool
  pub cree_le : ℕ
  pub modifie_le : ℕ

-- `UniteOperationnelle.create`
unfoldable pub create_unite : ℕ → ℕ → ℕ → Text → ReferentielOrganisation → UniteOperationnelle
create_unite now id organisation_id nom referentiel = record {
  id = id;
  organisation_id = organisation_id;
  nom = trim nom;
  referentiel = referentiel;
  est_actif = true;
  cree_le = now;
  modifie_le = now;
}

unfoldable pub update_unite_referentiel :
    ℕ → PartialReferentiel → UniteOperationnelle → UniteOperationnelle
update_unite_referentiel now u x = record x {
  referentiel = merge_referentiel u x.referentiel;
  modifie_le = now;
}

-- `deactivate` and `reactivate`
unfoldable pub set_unite_activation : ℕ → Bool → UniteOperationnelle → UniteOperationnelle
set_unite_activation now est_actif x = record x { est_actif = est_actif; modifie_le = now }
