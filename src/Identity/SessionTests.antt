-- ===== src/Identity/SessionTests.antt =====
-- Runs of the token rotation and of the second factor on concrete data.
use core_kernel.Prelude.{
  ℕ, ◌≡◌, refl, Option, none, some, List, [], ◌∷◌, ok, err, codes, arith, text_eq, find_by_key,
}
use core_kernel.Identity.User.{token_already_used, enable_mfa, assert_can_authenticate}
use core_kernel.Identity.Tokens.{
  RefreshToken, MfaFactor, MfaStatus, assert_valid_and_consume, issue,
}
use core_kernel.Identity.Store.{Store, resolve_roles, resolve_scopes, user_key}
use core_kernel.Identity.Login.{Authenticated}
use core_kernel.Identity.Session.{RefreshCommand, renew, open_session, refresh, refresh_request}
use core_kernel.Identity.Mfa.{find_active_by_user, confirm_enrollment, verify_challenge}
use core_kernel.Identity.Rotation.{Rotated, refresh_rotates}
use core_kernel.Identity.Requests.{AuthRequest, login_with, renew_with, serve_all}
use core_kernel.Identity.Once.{refresh_once, replayed_family_lives}
use core_kernel.Identity.SecondFactor.{OpensFor, right_code_opens, foreign_factor_confirms}
use core_kernel.Identity.Tests.{services, awa, locked_awa, store, fresh, login}

abbrev token : Option ℕ → Option ℕ → RefreshToken
token consomme_le revoque_le = record {
  id = 40;
  gsg_id = 1;
  token_hash = codes "old";
  family_id = 60;
  emis_le = 0;
  expire_le = 5000;
  consomme_le = consomme_le;
  revoque_le = revoque_le;
  ip_emission = codes "::1";
  user_agent = codes "curl";
}

abbrev with_token : RefreshToken → Store
with_token t = record (store awa) { tokens = t ∷ [] }

abbrev renewal : RefreshCommand
renewal = record {
  refresh_token_plain = codes "old";
  refresh_token_id = 40;
  ip_address = codes "::1";
  user_agent = codes "curl";
}

abbrev refreshed : Store
refreshed = (refresh services 100 fresh renewal (with_token (token none none))).1

abbrev new_session : Authenticated
new_session = record {
  access_token = codes "access";
  access_token_expires_in_seconds = 900;
  refresh_token = codes "plain";
}

refresh_rotates_example :
    Rotated services 100 fresh renewal (with_token (token none none)) refreshed
unfolding refresh text_eq assert_valid_and_consume renew open_session assert_can_authenticate
    resolve_roles resolve_scopes issue
refresh_rotates_example =
    refresh_rotates services 100 fresh renewal (with_token (token none none)) (λ e. cc) new_session
      refreshed refl

renewed_request :
    refresh_request services 100 fresh renewal (with_token (token none none))
    ≡ (ok new_session, refreshed)
unfolding refresh_request refresh text_eq assert_valid_and_consume renew open_session
    assert_can_authenticate resolve_roles resolve_scopes issue
renewed_request = refl

-- A login and a refresh come between.
abbrev between : List AuthRequest
between = login_with 150 fresh (login (codes "wrong")) ∷ renew_with 160 fresh renewal ∷ []

refresh_once_example :
    refresh_request services 200 fresh renewal (serve_all services between refreshed)
    ≡ (err token_already_used, serve_all services between refreshed)
refresh_once_example =
    refresh_once services 100 200 fresh fresh renewal between (with_token (token none none))
      refreshed new_session (λ e. cc) (λ e. cc, (λ e. cc, tt)) renewed_request

-- The token 40 was consumed when the token 41 was issued.
abbrev successor : RefreshToken
successor = record (token none none) { id = 41; token_hash = codes "new" }

abbrev rotated_store : Store
rotated_store = record (store awa) { tokens = token (some 9) none ∷ successor ∷ [] }

abbrev next_renewal : RefreshCommand
next_renewal = record renewal { refresh_token_plain = codes "new"; refresh_token_id = 41 }

replayed_family_lives_example :
    let (refused, s1) = refresh_request services 100 fresh renewal rotated_store in
    (refused ≡ err token_already_used)
    × (a : Authenticated) × (s2 : Store) × (refresh_request services 200 fresh next_renewal s1
        ≡ (ok a, s2))
unfolding text_eq assert_can_authenticate
replayed_family_lives_example =
    replayed_family_lives services 100 200 9 fresh fresh renewal next_renewal rotated_store
      (token (some 9) none) successor awa refl refl refl refl refl refl refl refl refl
      (ground arith) refl refl

abbrev factor : ℕ → MfaFactor
factor gsg_id = record {
  id = 30;
  gsg_id = gsg_id;
  secret_chiffre = codes "secret";
  statut = MfaStatus.actif;
  codes_recuperation_hashes = codes "r1" ∷ codes "r2" ∷ [];
  cree_le = 0;
  active_le = some 0;
}

abbrev with_factor : ℕ → Store
with_factor gsg_id = record (store locked_awa) { factors = factor gsg_id ∷ [] }

right_code_opens_example : OpensFor services 100 fresh 1 (with_factor 1) (
    verify_challenge services 100 fresh
      (codes "challenge")
      (codes "123456")
      (codes "::1")
      (codes "curl")
      (with_factor 1))
unfolding text_eq
right_code_opens_example =
    right_code_opens services 100 fresh (codes "challenge") (codes "123456") (codes "secret")
      (codes "::1") (codes "curl") (with_factor 1) 1 (factor 1) refl refl refl locked_awa refl refl

foreign_factor_confirms_example :
    let (r, s') = confirm_enrollment services 100 1 30 (codes "123456") (with_factor 2) in
    (r ≡ ok tt)
    × (find_by_key user_key 1 s'.users ≡ some (enable_mfa 100 locked_awa))
    × (find_active_by_user 1 s'.factors ≡ none)
unfolding text_eq
foreign_factor_confirms_example =
    foreign_factor_confirms services 100 1 30 (codes "123456") (codes "secret") (with_factor 2)
      (factor 2) locked_awa refl (λ e. cc) refl refl refl refl
