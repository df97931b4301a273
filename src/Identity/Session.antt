-- ===== src/Identity/Session.antt =====
-- Rotation of refresh tokens (src/identity/application/use-cases/refresh-token.use-case.ts) and the
-- revocation of a family in the repository.
use core_kernel.Prelude.{
  ℕ, ◌+◌, not, some, List, map, Result, ok, err, pure, raise, gets, or_raise, lift, modify,
  raise_if, ◌>>=◌, ◌>>◌, Text, text_eq, ◌==◌, if◌then◌else◌, find_by_key,
}
use core_kernel.Common.Transaction.{intercept, post}
use core_kernel.Identity.User.{
  User, IdentityError, invalid_credentials, token_already_used, assert_can_authenticate,
}
use core_kernel.Identity.Tokens.{RefreshToken, issue, assert_valid_and_consume}
use core_kernel.Identity.Store.{
  Store, Task, Services, Fresh, put_token, token_key, user_key, resolve_roles, resolve_scopes,
}
use core_kernel.Identity.Login.{Authenticated, refresh_token_ttl}

pub record RefreshCommand : Type 0 where
  pub refresh_token_plain : Text
  pub refresh_token_id : ℕ
  pub ip_address : Text
  pub user_agent : Text

-- `update({ familyId }, { revoqueLe })`
unfoldable pub revoke_family : ℕ → ℕ → List RefreshToken → List RefreshToken
revoke_family now family =
    map (λ t. if t.family_id == family then record t { revoque_le = some now } else t)

abbrev pub revoke_in : ℕ → ℕ → Store → Store
revoke_in now family s = record s { tokens = revoke_family now family s.tokens }

-- The `try` block: a token that was consumed before revokes its family, and every error is rethrown.
abbrev pub consume_or_revoke : ℕ → ℕ → Result IdentityError RefreshToken → Task RefreshToken
consume_or_revoke now family (ok t) = pure t
consume_or_revoke now family (err token_already_used) =
    modify (revoke_in now family) >> raise token_already_used
consume_or_revoke now family (err e) = raise e

module _ (services : Services) where
  -- The new tokens of an account: the refresh token stays in the family.
  unfoldable pub open_session : ℕ → Fresh → RefreshCommand → ℕ → User → Task Authenticated
  open_session now fresh c family user = do
    roles ← gets (resolve_roles user.gsg_id)
    orgs ← gets (resolve_scopes user.gsg_id)
    modify (
        put_token (
          issue fresh.token_id user.gsg_id (services.hash_refresh_token fresh.token_plain) family
            now (now + refresh_token_ttl) c.ip_address c.user_agent))
    pure (record {
      access_token = services.issue_access_token now (record {
        gsg_id = user.gsg_id;
        roles = roles;
        gsg_org_ids = orgs;
        mfa_verified = user.mfa_active;
      });
      access_token_expires_in_seconds = services.access_ttl_seconds;
      refresh_token = fresh.token_plain;
    })

  -- What follows once the presented token is consumed.
  unfoldable pub renew : ℕ → Fresh → RefreshCommand → RefreshToken → Task Authenticated
  renew now fresh c consumed = do
    modify (put_token consumed)
    user ← or_raise (← gets (λ s. find_by_key user_key consumed.gsg_id s.users)) invalid_credentials
    lift (assert_can_authenticate now user)
    open_session now fresh c consumed.family_id user

  -- `RefreshTokenUseCase.execute`: what it leaves in the store after an error is undone by the
  -- transaction of `refresh_request`, its only caller.
  unfoldable pub refresh : ℕ → Fresh → RefreshCommand → Task Authenticated
  refresh now fresh c = do
    existing ←
        or_raise (← gets (λ s. find_by_key token_key c.refresh_token_id s.tokens))
          invalid_credentials
    raise_if (not (text_eq (services.hash_refresh_token c.refresh_token_plain) existing.token_hash))
        invalid_credentials
    consumed ← consume_or_revoke now existing.family_id (assert_valid_and_consume now existing)
    renew now fresh c consumed

  -- `POST /v1/auth/refresh`, under the transaction of every write request.
  unfoldable pub refresh_request : ℕ → Fresh → RefreshCommand → Task Authenticated
  refresh_request now fresh c = intercept post (refresh now fresh c)
