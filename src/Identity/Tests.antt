-- ===== src/Identity/Tests.antt =====
-- Runs of the identity service on concrete data, with a hash that is the text itself.
use core_kernel.Prelude.{
  ℕ, ◌≡◌, refl, true, false, Option, none, some, [], ◌∷◌, ok, err, codes, Text, arith, text_eq,
  text_eq_iff, trim,
}
use core_kernel.Common.Email.{create_email, is_email}
use core_kernel.Identity.User.{
  User, UserStatus, Referentiel, account_locked, assert_can_authenticate,
}
use core_kernel.Identity.Store.{Store, Services, Fresh}
use core_kernel.Identity.Login.{
  LoginCommand, Authenticated, authenticated, mfa_required, authenticate, accept, dummy_password,
}
use core_kernel.Identity.Lockout.{
  MayTry, fail_at, failures_lock, serve_logins, wrong_guesses_never_lock,
}
use core_kernel.Identity.Entry.{PassedBy, authenticate_sound, passwordless_account_entered}

abbrev pub services : Services
services = record {
  lower = λ t. t;
  hash_password = λ salt p. p;
  verify_password = λ p hash. text_eq p hash;
  issue_access_token = λ now claims. codes "access";
  access_ttl_seconds = 900;
  hash_refresh_token = λ t. t;
  issue_mfa_challenge_token = λ now id. codes "challenge";
  verify_mfa_challenge_token = λ now t. some 1;
  generate_totp_secret = λ salt. codes "secret";
  encrypt_secret = λ salt t. t;
  decrypt_secret = λ t. some t;
  verify_totp_code = λ now secret code. text_eq code (codes "123456");
  hash_recovery_code = λ t. t;
}

abbrev pub address : Text
address = codes "a@b.fr"

abbrev pub nowhere : Referentiel
nowhere = record {
  pays_id = none;
  unite_administrative_id = none;
  ville_id = none;
  langue_id = none;
  devise_id = none;
  fuseau_horaire = none;
}

abbrev pub user : Option Text → Option ℕ → User
user password_hash until = record {
  gsg_id = 1;
  email = some address;
  email_verifie = true;
  phone = none;
  phone_verifie = false;
  password_hash = password_hash;
  nom_affichage = codes "Awa";
  statut = UserStatus.actif;
  mfa_active = false;
  referentiel = nowhere;
  cree_le = 0;
  modifie_le = 0;
  dernier_auth_le = none;
  tentatives_echouees = 0;
  verrouille_jusqua = until;
}

abbrev pub awa : User
awa = user (some (codes "right")) none

abbrev pub locked_awa : User
locked_awa = user (some (codes "right")) (some 1000)

abbrev pub store : User → Store
store u = record {
  users = u ∷ [];
  roles = [];
  assignments = [];
  tokens = [];
  factors = [];
  mappings = [];
  events = [];
}

abbrev pub fresh : Fresh
fresh = record { token_id = 50; family_id = 60; token_plain = codes "plain"; salt = 7 }

abbrev pub login : Text → LoginCommand
login password = record {
  email = address;
  password = password;
  ip_address = codes "::1";
  user_agent = codes "curl";
}

failures_lock_example :
    assert_can_authenticate 100 (fail_at (1 ∷ 2 ∷ 3 ∷ 4 ∷ 5 ∷ []) awa) ≡ err (account_locked 900005)
failures_lock_example = failures_lock (1 ∷ 2 ∷ 3 ∷ 4 ∷ []) 5 100 awa (ground arith) refl

normal : create_email services.lower address ≡ some address
unfolding create_email is_email trim
normal = refl

may_try : MayTry 100 awa
may_try = record { active = refl; unlocked = refl }

wrong_guesses_never_lock_example :
    serve_logins services
      ((100, fresh, login (codes "wrong")) ∷ (101, fresh, login (codes "worse")) ∷ [])
      (store awa)
    ≡ store awa
unfolding text_eq
wrong_guesses_never_lock_example =
    wrong_guesses_never_lock services
      ((100, fresh, login (codes "wrong")) ∷ (101, fresh, login (codes "worse")) ∷ []) (store awa)
      awa refl refl ((address, normal, refl, refl), ((address, normal, refl, refl), tt))

passwordless_account_entered_example :
    (a : Authenticated) × ((authenticate services 100 fresh
        (login dummy_password)
        (store (user none none))).0
      ≡ ok (authenticated a))
unfolding text_eq
passwordless_account_entered_example =
    passwordless_account_entered services 100 fresh (login dummy_password) (store (user none none))
      address (user none none) (λ salt p. (text_eq_iff p p).1 refl) normal refl refl
      (record { active = refl; unlocked = refl }) refl refl

authenticate_sound_example :
    PassedBy services 100 fresh
      (login (codes "right"))
      (store (record awa { mfa_active = true }))
      (mfa_required (codes "challenge"))
unfolding text_eq authenticate accept assert_can_authenticate create_email is_email trim
authenticate_sound_example =
    authenticate_sound services 100 fresh (login (codes "right"))
      (store (record awa { mfa_active = true })) (mfa_required (codes "challenge")) refl
