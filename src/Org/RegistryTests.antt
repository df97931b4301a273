-- ===== src/Org/RegistryTests.antt =====
-- The registry of organisations on small inputs.
use core_kernel.Prelude.{ℕ, ◌≡◌, ◌↔◌, refl, true, none, some, [], ◌∷◌, codes, List, arith}
use core_kernel.Common.Ancestry.{Below}
use core_kernel.Org.Organisation.{ReferentielOrganisation}
use core_kernel.Org.Registry.{
  OrganisationRow, Organisations, create, reattach, mere_of, is_descendant_or_self,
}
use core_kernel.Org.Filiation.{IsFiliation, is_descendant_or_self-Below}
use core_kernel.Org.Reached.{IsFresh, empty, created, reattached, served-IsFiliation}

abbrev nowhere : ReferentielOrganisation
nowhere = record {
  pays_id = none;
  unite_administrative_id = none;
  ville_id = none;
  devise_id = none;
  langue_id = none;
  fuseau_horaire = none;
}

abbrev blank : Organisations
blank = record { organisations = []; unites = []; events = [] }

blank-IsFresh : IsFresh 1 blank
blank-IsFresh = record { given_id = ground arith; absent = refl; unnamed = λ x h. cc }

-- A mother organisation, which is then to be placed under itself.
served-IsFiliation_example :
    IsFiliation (reattach 6 1 (some 1) (create 5 1 (codes "Mere") none nowhere blank).1).1
served-IsFiliation_example =
    served-IsFiliation
      (reattached 6 1 (some 1) (created 5 1 (codes "Mere") none nowhere blank-IsFresh (empty refl)))

abbrev row : ℕ → List ℕ → OrganisationRow
row id mere = record {
  id = id;
  nom = codes "Org";
  organisation_mere_id = elim mere [ [] ↦ none | m ∷ _ ↦ some m ];
  pays_id = none;
  unite_administrative_id = none;
  ville_id = none;
  devise_id = none;
  langue_id = none;
  fuseau_horaire = none;
  est_actif = true;
  cree_le = 5;
  modifie_le = 5;
}

abbrev family : List OrganisationRow
family = row 1 [] ∷ row 2 (1 ∷ []) ∷ row 3 (2 ∷ []) ∷ []

is_descendant_or_self-Below_example :
    (is_descendant_or_self family 3 1 ≡ true) ↔ Below (mere_of family) 1 3
is_descendant_or_self-Below_example = is_descendant_or_self-Below family 3 1 refl
