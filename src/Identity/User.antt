-- ===== src/Identity/User.antt =====
-- The account of a user (src/identity/domain/entities/user.entity.ts). A date is its number of
-- milliseconds; a method that reads the clock takes the time as `now`.
use core_kernel.Prelude.{
  ℕ, ◌+◌, ◌*◌, Bool, true, false, Option, none, some, Result, ok, err, Text, ltb, leb, or_else,
  is_some, if◌then◌else◌,
}

-- `UserStatus`
pub data UserStatus : Type 0 where
  actif suspendu desactive : UserStatus

-- The errors of the identity service, with what their messages carry.
pub data IdentityError : Type 0 where
  missing_identifier : IdentityError
  account_locked : ℕ → IdentityError
  account_inactive : UserStatus → IdentityError
  invalid_email : Text → IdentityError
  invalid_credentials : IdentityError
  token_revoked token_already_used token_expired : IdentityError
  unauthorized internal_error : IdentityError
  user_not_found invalid_mfa_code mfa_already_enabled : IdentityError

pub record Referentiel : Type 0 where
  pub pays_id : Option ℕ
  pub unite_administrative_id : Option ℕ
  pub ville_id : Option ℕ
  pub langue_id : Option ℕ
  pub devise_id : Option ℕ
  pub fuseau_horaire : Option Text

pub record User : Type 0 where
  pub gsg_id : ℕ
  pub email : Option Text
  pub email_verifie : Bool
  pub phone : Option Text
  pub phone_verifie : Bool
  pub password_hash : Option Text
  pub nom_affichage : Text
  pub statut : UserStatus
  pub mfa_active : Bool
  pub referentiel : Referentiel
  pub cree_le : ℕ
  pub modifie_le : ℕ
  pub dernier_auth_le : Option ℕ
  pub tentatives_echouees : ℕ
  pub verrouille_jusqua : Option ℕ

abbrev pub max_failed_attempts : ℕ
max_failed_attempts = 5

-- `LOCKOUT_DURATION_MINUTES * 60_000`
abbrev pub lockout_duration : ℕ
lockout_duration = 15 * 60000

unfoldable register : ℕ → Text → Option Text → Text → Text → Referentiel → ℕ → User
register gsg_id email phone password_hash nom referentiel now = record {
  gsg_id = gsg_id;
  email = some email;
  email_verifie = false;
  phone = phone;
  phone_verifie = false;
  password_hash = some password_hash;
  nom_affichage = nom;
  statut = actif;
  mfa_active = false;
  referentiel = referentiel;
  cree_le = now;
  modifie_le = now;
  dernier_auth_le = none;
  tentatives_echouees = 0;
  verrouille_jusqua = none;
}

abbrev external : ℕ → Option Text → Option Text → Text → Referentiel → ℕ → User
external gsg_id email phone nom referentiel now = record {
  gsg_id = gsg_id;
  email = email;
  email_verifie = is_some email;
  phone = phone;
  phone_verifie = is_some phone;
  password_hash = none;
  nom_affichage = nom;
  statut = actif;
  mfa_active = false;
  referentiel = referentiel;
  cree_le = now;
  modifie_le = now;
  dernier_auth_le = none;
  tentatives_echouees = 0;
  verrouille_jusqua = none;
}

unfoldable register_via_verified_external_identity :
    ℕ → Option Text → Option Text → Text → Referentiel → ℕ → Result IdentityError User
register_via_verified_external_identity gsg_id none none nom referentiel now =
    err missing_identifier
register_via_verified_external_identity gsg_id email phone nom referentiel now =
    ok (external gsg_id email phone nom referentiel now)

-- `verrouilleJusqua && verrouilleJusqua > now`
abbrev pub is_locked : ℕ → Option ℕ → Bool
is_locked now none = false
is_locked now (some until) = ltb now until

abbrev check_lock : ℕ → Option ℕ → Result IdentityError (Unit {0})
check_lock now none = ok tt
check_lock now (some until) = if ltb now until then err (account_locked until) else ok tt

abbrev check_statut : UserStatus → Result IdentityError (Unit {0}) → Result IdentityError (Unit {0})
check_statut actif rest = rest
check_statut s rest = err (account_inactive s)

unfoldable pub assert_can_authenticate : ℕ → User → Result IdentityError (Unit {0})
assert_can_authenticate now u = check_statut u.statut (check_lock now u.verrouille_jusqua)

unfoldable pub register_failed_authentication : ℕ → User → User
register_failed_authentication now u =
    let attempts = u.tentatives_echouees + 1 in
    record u {
      tentatives_echouees = attempts;
      verrouille_jusqua =
          if leb max_failed_attempts attempts
          then some (now + lockout_duration)
          else u.verrouille_jusqua;
      modifie_le = now;
    }

unfoldable pub register_successful_authentication : ℕ → User → User
register_successful_authentication now u = record u {
  tentatives_echouees = 0;
  verrouille_jusqua = none;
  dernier_auth_le = some now;
  modifie_le = now;
}

unfoldable pub enable_mfa : ℕ → User → User
enable_mfa now u = record u { mfa_active = true; modifie_le = now }

unfoldable disable_mfa : ℕ → User → User
disable_mfa now u = record u { mfa_active = false; modifie_le = now }

unfoldable change_password_hash : Text → ℕ → User → User
change_password_hash hash now u = record u { password_hash = some hash; modifie_le = now }

unfoldable mark_email_verified : ℕ → User → User
mark_email_verified now u = record u { email_verifie = true; modifie_le = now }

unfoldable mark_phone_verified : ℕ → User → User
mark_phone_verified now u = record u { phone_verifie = true; modifie_le = now }

abbrev keep_or : Option Text → Text → Option Text
keep_or none t = some t
keep_or (some t) _ = some t

unfoldable attach_verified_email : Text → ℕ → User → User
attach_verified_email email now u = record u {
  email = keep_or u.email email;
  email_verifie = true;
  modifie_le = now;
}

unfoldable attach_verified_phone : Text → ℕ → User → User
attach_verified_phone phone now u = record u {
  phone = keep_or u.phone phone;
  phone_verifie = true;
  modifie_le = now;
}

-- A partial referential: a field that is not given stays, one that is given may be `null`.
pub record ReferentielUpdate : Type 0 where
  pub pays_id : Option (Option ℕ)
  pub unite_administrative_id : Option (Option ℕ)
  pub ville_id : Option (Option ℕ)
  pub langue_id : Option (Option ℕ)
  pub devise_id : Option (Option ℕ)
  pub fuseau_horaire : Option (Option Text)

unfoldable update_referentiel : ReferentielUpdate → ℕ → User → User
update_referentiel p now u = record u {
  referentiel = record {
    pays_id = or_else p.pays_id u.referentiel.pays_id;
    unite_administrative_id =
        or_else p.unite_administrative_id u.referentiel.unite_administrative_id;
    ville_id = or_else p.ville_id u.referentiel.ville_id;
    langue_id = or_else p.langue_id u.referentiel.langue_id;
    devise_id = or_else p.devise_id u.referentiel.devise_id;
    fuseau_horaire = or_else p.fuseau_horaire u.referentiel.fuseau_horaire;
  };
  modifie_le = now;
}

unfoldable suspend : ℕ → User → User
suspend now u = record u { statut = suspendu; modifie_le = now }

unfoldable reactivate : ℕ → User → User
reactivate now u = record u { statut = actif; modifie_le = now }

unfoldable deactivate : ℕ → User → User
deactivate now u = record u { statut = desactive; modifie_le = now }
