-- ===== src/Identity/Store.antt =====
-- The tables of the identity service, the services that it calls, and the claims of an access token.
use core_kernel.Prelude.{
  ℕ, Bool, false, Option, none, some, List, [], ◌∷◌, ◌++◌, Text, text_eq, ◌==◌, Action, filter,
  filter_map, find?, find_by_key, save, distinct,
}
use core_kernel.Identity.User.{User, IdentityError}
use core_kernel.Identity.Tokens.{
  Role, UserRoleAssignment, RefreshToken, MfaFactor, ExternalIdentityMapping,
}

-- The events that are handed to the publisher, with the account they name.
pub data IdentityEvent : Type 0 where
  user_authenticated : ℕ → Text → IdentityEvent
  user_authentication_failed : ℕ → Text → IdentityEvent
  mfa_enabled : ℕ → IdentityEvent
  supabase_session_exchanged : ℕ → ℕ → IdentityEvent

pub record Store : Type 0 where
  pub users : List User
  pub roles : List Role
  pub assignments : List UserRoleAssignment
  pub tokens : List RefreshToken
  pub factors : List MfaFactor
  pub mappings : List ExternalIdentityMapping
  pub events : List IdentityEvent

abbrev pub Task : Type 0 → Type 0
Task A = Action Store IdentityError A

-- `AccessTokenPayload`
pub record Claims : Type 0 where
  pub gsg_id : ℕ
  pub roles : List Text
  pub gsg_org_ids : List ℕ
  pub mfa_verified : Bool

-- What is computed outside the program: Argon2, JWT, TOTP, SHA-256 and AES, and `toLowerCase`. What
-- is random in them, or depends on the time, is an argument.
pub record Services : Type 0 where
  pub lower : Text → Text
  pub hash_password : ℕ → Text → Text
  pub verify_password : Text → Text → Bool
  pub issue_access_token : ℕ → Claims → Text
  pub access_ttl_seconds : ℕ
  pub hash_refresh_token : Text → Text
  pub issue_mfa_challenge_token : ℕ → ℕ → Text
  pub verify_mfa_challenge_token : ℕ → Text → Option ℕ
  pub generate_totp_secret : ℕ → Text
  pub encrypt_secret : ℕ → Text → Text
  pub decrypt_secret : Text → Option Text
  pub verify_totp_code : ℕ → Text → Text → Bool
  pub hash_recovery_code : Text → Text

-- The identifiers and secrets that one request draws.
pub record Fresh : Type 0 where
  pub token_id : ℕ
  pub family_id : ℕ
  pub token_plain : Text
  pub salt : ℕ

abbrev pub user_key : User → ℕ
user_key u = u.gsg_id

abbrev pub token_key : RefreshToken → ℕ
token_key t = t.id

abbrev pub factor_key : MfaFactor → ℕ
factor_key f = f.id

abbrev role_key : Role → ℕ
role_key r = r.id

abbrev pub put_user : User → Store → Store
put_user u s = record s { users = save user_key u s.users }

abbrev pub put_token : RefreshToken → Store → Store
put_token t s = record s { tokens = save token_key t s.tokens }

abbrev pub put_factor : MfaFactor → Store → Store
put_factor f s = record s { factors = save factor_key f s.factors }

abbrev pub emit : IdentityEvent → Store → Store
emit e s = record s { events = s.events ++ (e ∷ []) }

abbrev pub has_text : Text → Option Text → Bool
has_text t none = false
has_text t (some u) = text_eq u t

-- `findByEmail`
abbrev pub find_by_email : Text → List User → Option User
find_by_email email = find? (λ u. has_text email u.email)

abbrev org_of : UserRoleAssignment → Option ℕ
org_of a = a.gsg_org_id

abbrev pub assignments_of : ℕ → Store → List UserRoleAssignment
assignments_of gsg_id s = filter (λ a. a.gsg_id == gsg_id) s.assignments

abbrev role_code : Option Role → Option Text
role_code none = none
role_code (some r) = some r.code

-- The codes of the roles that still exist, and the organisations, each once.
unfoldable pub resolve_roles : ℕ → Store → List Text
resolve_roles gsg_id s =
    filter_map (λ a. role_code (find_by_key role_key a.role_id s.roles)) (assignments_of gsg_id s)

unfoldable pub resolve_scopes : ℕ → Store → List ℕ
resolve_scopes gsg_id s = distinct (filter_map org_of (assignments_of gsg_id s))
