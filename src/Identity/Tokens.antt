-- ===== src/Identity/Tokens.antt =====
-- Roles, refresh tokens, second factors and external identities
-- (src/identity/domain/entities/rbac-and-tokens.entity.ts).
use core_kernel.Prelude.{
  ℕ, Bool, not, Option, none, some, List, Result, ok, err, Text, text_eq, leb, if◌then◌else◌,
  filter, any,
}
use core_kernel.Identity.User.{IdentityError, token_revoked, token_already_used, token_expired}

pub record Role : Type 0 where
  pub id : ℕ
  pub code : Text
  pub nom : Text
  pub description : Text
  pub gsg_org_id : Option ℕ
  pub permissions : List Text
  pub cree_le : ℕ

unfoldable has_permission : Text → Role → Bool
has_permission code r = any (text_eq code) r.permissions

pub record UserRoleAssignment : Type 0 where
  pub id : ℕ
  pub gsg_id : ℕ
  pub role_id : ℕ
  pub gsg_org_id : Option ℕ
  pub assigne_par : ℕ
  pub assigne_le : ℕ

pub record RefreshToken : Type 0 where
  pub id : ℕ
  pub gsg_id : ℕ
  pub token_hash : Text
  pub family_id : ℕ
  pub emis_le : ℕ
  pub expire_le : ℕ
  pub consomme_le : Option ℕ
  pub revoque_le : Option ℕ
  pub ip_emission : Text
  pub user_agent : Text

unfoldable pub issue : ℕ → ℕ → Text → ℕ → ℕ → ℕ → Text → Text → RefreshToken
issue id gsg_id token_hash family_id emis_le expire_le ip user_agent = record {
  id = id;
  gsg_id = gsg_id;
  token_hash = token_hash;
  family_id = family_id;
  emis_le = emis_le;
  expire_le = expire_le;
  consomme_le = none;
  revoque_le = none;
  ip_emission = ip;
  user_agent = user_agent;
}

abbrev check_valid : ℕ → Option ℕ → Option ℕ → ℕ → RefreshToken → Result IdentityError RefreshToken
check_valid now (some _) consumed expires t = err token_revoked
check_valid now none (some _) expires t = err token_already_used
check_valid now none none expires t = if leb expires now then err token_expired else ok t

-- `assertValidAndConsume`: the consumed token, or the reason of the refusal.
unfoldable pub assert_valid_and_consume : ℕ → RefreshToken → Result IdentityError RefreshToken
assert_valid_and_consume now t =
    check_valid now t.revoque_le t.consomme_le t.expire_le (record t { consomme_le = some now })

unfoldable revoke : ℕ → RefreshToken → RefreshToken
revoke now t = record t { revoque_le = some now }

pub data MfaStatus : Type 0 where
  en_attente_activation actif revoque : MfaStatus

-- The type of a factor is always `totp`.
pub record MfaFactor : Type 0 where
  pub id : ℕ
  pub gsg_id : ℕ
  pub secret_chiffre : Text
  pub statut : MfaStatus
  pub codes_recuperation_hashes : List Text
  pub cree_le : ℕ
  pub active_le : Option ℕ

unfoldable pub create_pending : ℕ → ℕ → Text → List Text → ℕ → MfaFactor
create_pending id gsg_id secret hashes now = record {
  id = id;
  gsg_id = gsg_id;
  secret_chiffre = secret;
  statut = en_attente_activation;
  codes_recuperation_hashes = hashes;
  cree_le = now;
  active_le = none;
}

unfoldable pub activate : ℕ → MfaFactor → MfaFactor
activate now f = record f { statut = actif; active_le = some now }

unfoldable revoke_factor : MfaFactor → MfaFactor
revoke_factor f = record f { statut = revoque }

unfoldable pub consume_recovery_code : Text → MfaFactor → MfaFactor
consume_recovery_code hash f = record f {
  codes_recuperation_hashes = filter (λ h. not (text_eq h hash)) f.codes_recuperation_hashes;
}

pub record ExternalIdentityMapping : Type 0 where
  pub id : ℕ
  pub gsg_id : ℕ
  pub produit_id : ℕ
  pub external_user_id : Text
  pub lie_le : ℕ
