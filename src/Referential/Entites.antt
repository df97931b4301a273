-- ===== src/Referential/Entites.antt =====
-- Countries (src/referential/domain/entities/pays.entity.ts) and their use cases
-- (src/referential/application/use-cases/pays.use-cases.ts). `upper` stands for `toUpperCase`.
use core_kernel.Prelude.{
  ℕ, Bool, true, false, ◌&&◌, Option, [], ◌∷◌, Text, trim, leb, or_else, if◌then◌else◌, Result, ok,
  err, ◌>>◌, modify,
}
use core_kernel.Referential.Nomenclature.{
  Statut, brouillon, NomenclatureError, invalid_code, deactivated, Kind, Task, emit, add_row,
  change_row,
}

abbrev is_upper : ℕ → Bool
is_upper c = leb b'A' c && leb c b'Z'

-- `ISO_3166_1_ALPHA_2_REGEX`
unfoldable pub is_iso_3166 : Text → Bool
is_iso_3166 (a ∷ b ∷ []) = is_upper a && is_upper b
is_iso_3166 _ = false

pub record Pays : Type 0 where
  pub id : ℕ
  pub code_iso : Text
  pub nom : Text
  pub organisme_regional_principal : Option Text
  pub notes_souverainete : Option Text
  pub adresse_gabarit : Option Text
  pub fuseau_horaire : Option Text
  pub est_actif : Bool
  pub statut_workflow : Statut
  pub cree_le : ℕ
  pub modifie_le : ℕ

pub record CreatePays : Type 0 where
  pub code_iso : Text
  pub nom : Text
  pub organisme_regional_principal : Option Text
  pub notes_souverainete : Option Text
  pub adresse_gabarit : Option Text
  pub fuseau_horaire : Option Text

-- `Pays.create`
unfoldable pub create_pays : (Text → Text) → ℕ → ℕ → CreatePays → Result NomenclatureError Pays
unfolding is_iso_3166
create_pays upper now id c =
    let code_iso = upper (trim c.code_iso) in
    if is_iso_3166 code_iso
    then ok (record {
      id = id;
      code_iso = code_iso;
      nom = trim c.nom;
      organisme_regional_principal = c.organisme_regional_principal;
      notes_souverainete = c.notes_souverainete;
      adresse_gabarit = c.adresse_gabarit;
      fuseau_horaire = c.fuseau_horaire;
      est_actif = true;
      statut_workflow = brouillon;
      cree_le = now;
      modifie_le = now;
    })
    else err (invalid_code c.code_iso)

pub record PaysUpdates : Type 0 where
  pub nom : Option Text
  pub organisme_regional_principal : Option (Option Text)
  pub notes_souverainete : Option (Option Text)
  pub adresse_gabarit : Option (Option Text)
  pub fuseau_horaire : Option (Option Text)

-- `updateDetails`
unfoldable pub update_pays : PaysUpdates → ℕ → Pays → Pays
update_pays u now p = record p {
  nom = or_else u.nom p.nom;
  organisme_regional_principal =
      or_else u.organisme_regional_principal p.organisme_regional_principal;
  notes_souverainete = or_else u.notes_souverainete p.notes_souverainete;
  adresse_gabarit = or_else u.adresse_gabarit p.adresse_gabarit;
  fuseau_horaire = or_else u.fuseau_horaire p.fuseau_horaire;
  modifie_le = now;
}

-- `deactivate` and `reactivate`
unfoldable pub activate_pays : Bool → ℕ → Pays → Pays
activate_pays est_actif now p = record p { est_actif = est_actif; modifie_le = now }

abbrev pub pays_kind : Kind Pays
pays_kind = record {
  id = λ p. p.id;
  code = λ p. p.code_iso;
  statut = λ p. p.statut_workflow;
  with_statut = λ now to p. record p { statut_workflow = to; modifie_le = now };
}

-- `CreatePaysUseCase.execute`
unfoldable pub add_pays : (Text → Text) → ℕ → ℕ → CreatePays → Task pays_kind ℕ
add_pays upper now id c =
    let code_normalise = upper (trim c.code_iso) in
    add_row pays_kind code_normalise
      (create_pays upper now id (record c { code_iso = code_normalise }))

-- `UpdatePaysUseCase.execute`
unfoldable pub change_pays : PaysUpdates → ℕ → ℕ → Task pays_kind (Unit {0})
change_pays u now id = change_row pays_kind (update_pays u now) id

-- `SetPaysActivationUseCase`
unfoldable pub deactivate_pays : ℕ → ℕ → Task pays_kind (Unit {0})
deactivate_pays now id =
    change_row pays_kind (activate_pays false now) id >> modify (emit pays_kind (deactivated id))

unfoldable pub reactivate_pays : ℕ → ℕ → Task pays_kind (Unit {0})
reactivate_pays now id = change_row pays_kind (activate_pays true now) id
