-- ===== src/Identity/Login.antt =====
-- Login with e-mail and password (src/identity/application/use-cases/authenticate-user.use-case.ts).
use core_kernel.Prelude.{
  ℕ, ◌+◌, ◌*◌, Bool, true, Option, none, some, pure, raise, gets, or_raise, lift, modify, ◌>>=◌,
  ◌>>◌, Text, codes, or_else, if◌then◌else◌, find_by_key,
}
use core_kernel.Common.Email.{create_email}
use core_kernel.Common.Transaction.{intercept, post}
use core_kernel.Identity.User.{
  User, invalid_email, invalid_credentials, assert_can_authenticate, register_failed_authentication,
  register_successful_authentication,
}
use core_kernel.Identity.Tokens.{issue}
use core_kernel.Identity.Store.{
  Task, Services, Fresh, user_authenticated, user_authentication_failed, put_user, put_token, emit,
  find_by_email, user_key, resolve_roles, resolve_scopes,
}

pub record LoginCommand : Type 0 where
  pub email : Text
  pub password : Text
  pub ip_address : Text
  pub user_agent : Text

pub record Authenticated : Type 0 where
  pub access_token : Text
  pub access_token_expires_in_seconds : ℕ
  pub refresh_token : Text

-- `AuthenticateUserResult`
pub data LoginResult : Type 0 where
  authenticated : Authenticated → LoginResult
  mfa_required : Text → LoginResult

-- `REFRESH_TOKEN_TTL_MS`, 30 days
abbrev pub refresh_token_ttl : ℕ
refresh_token_ttl = 30 * 24 * 60 * 60 * 1000

abbrev pub dummy_password : Text
dummy_password = codes "dummy-constant-time-comparison-value"

abbrev password_hash_of : Option User → Option Text
password_hash_of none = none
password_hash_of (some u) = u.password_hash

module _ (services : Services) where
  -- `completeAuthentication`
  unfoldable pub complete_authentication : ℕ → Fresh → User → Text → Text → Task Authenticated
  complete_authentication now fresh user ip agent = do
    roles ← gets (resolve_roles user.gsg_id)
    orgs ← gets (resolve_scopes user.gsg_id)
    modify (
        put_token (
          issue fresh.token_id user.gsg_id (services.hash_refresh_token fresh.token_plain)
            fresh.family_id now (now + refresh_token_ttl) ip agent))
    modify (put_user (register_successful_authentication now user))
    modify (emit (user_authenticated user.gsg_id ip))
    pure (record {
      access_token =
          services.issue_access_token now (record {
            gsg_id = user.gsg_id;
            roles = roles;
            gsg_org_ids = orgs;
            mfa_verified = true;
          });
      access_token_expires_in_seconds = services.access_ttl_seconds;
      refresh_token = fresh.token_plain;
    })

  -- `completeAuthenticationByGsgId`
  unfoldable pub complete_authentication_by_gsg_id :
      ℕ → Fresh → ℕ → Text → Text → Task Authenticated
  complete_authentication_by_gsg_id now fresh gsg_id ip agent = do
    user ← or_raise (← gets (λ s. find_by_key user_key gsg_id s.users)) invalid_credentials
    complete_authentication now fresh user ip agent

  -- The hash that the password is compared with: that of the account, or one of a constant.
  abbrev pub hash_for_comparison : Fresh → Option User → Text
  hash_for_comparison fresh user =
      or_else (password_hash_of user) (services.hash_password fresh.salt dummy_password)

  -- What follows a password that does not match.
  unfoldable pub refuse : ℕ → Text → Option User → Task LoginResult
  refuse now ip none = raise invalid_credentials
  refuse now ip (some u) = do
    lift (assert_can_authenticate now u)
    modify (put_user (register_failed_authentication now u))
    modify (emit (user_authentication_failed u.gsg_id ip))
    raise invalid_credentials

  unfoldable pub accept : ℕ → Fresh → LoginCommand → User → Task LoginResult
  accept now fresh c u = do
    lift (assert_can_authenticate now u)
    if u.mfa_active
        then (pure (mfa_required (services.issue_mfa_challenge_token now u.gsg_id)))
        else (complete_authentication now fresh u c.ip_address c.user_agent >>= λ a.
            pure (authenticated a))

  abbrev pub check_password : ℕ → Fresh → LoginCommand → Option User → Bool → Task LoginResult
  check_password now fresh c (some u) true = accept now fresh c u
  check_password now fresh c user _ = refuse now c.ip_address user

  -- `AuthenticateUserUseCase.execute`
  unfoldable pub authenticate : ℕ → Fresh → LoginCommand → Task LoginResult
  authenticate now fresh c = do
    email ← or_raise (create_email services.lower c.email) (invalid_email c.email)
    user ← gets (λ s. find_by_email email s.users)
    check_password now fresh c user
        (services.verify_password c.password (hash_for_comparison fresh user))

  -- `POST /v1/auth/login`, under the transaction of every write request.
  unfoldable pub login_request : ℕ → Fresh → LoginCommand → Task LoginResult
  login_request now fresh c = intercept post (authenticate now fresh c)
