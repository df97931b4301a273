-- ===== src/Identity/Mfa.antt =====
-- Second factors (src/identity/application/use-cases/mfa.use-cases.ts).
use core_kernel.Prelude.{
  ℕ, Bool, true, false, not, ◌&&◌, Option, List, map, any, find?, pure, gets, or_raise, modify,
  raise_if, ◌>>=◌, ◌>>◌, Text, text_eq, ◌==◌, if◌then◌else◌, find_by_key,
}
use core_kernel.Common.Transaction.{intercept, post}
use core_kernel.Identity.User.{
  user_not_found, mfa_already_enabled, invalid_mfa_code, unauthorized, internal_error, enable_mfa,
}
use core_kernel.Identity.Tokens.{
  MfaFactor, MfaStatus, actif, create_pending, activate, consume_recovery_code,
}
use core_kernel.Identity.Store.{
  Task, Services, Fresh, mfa_enabled, put_user, put_factor, factor_key, user_key, emit,
}
use core_kernel.Identity.Login.{Authenticated, complete_authentication_by_gsg_id}

abbrev is_active_factor : MfaStatus → Bool
is_active_factor actif = true
is_active_factor _ = false

-- `findActiveByUser`
abbrev pub find_active_by_user : ℕ → List MfaFactor → Option MfaFactor
find_active_by_user gsg_id = find? (λ f. f.gsg_id == gsg_id && is_active_factor f.statut)

pub record Enrollment : Type 0 where
  pub factor_id : ℕ
  pub secret_base32 : Text
  pub recovery_codes : List Text

module _ (services : Services) where
  -- `StartMfaEnrollmentUseCase.execute`: the new secret, the initialisation vector and the ten
  -- recovery codes are drawn at random.
  unfoldable start_enrollment : ℕ → ℕ → ℕ → ℕ → List Text → ℕ → Task Enrollment
  start_enrollment now factor_id seed iv codes gsg_id = do
    user ← or_raise (← gets (λ s. find_by_key user_key gsg_id s.users)) user_not_found
    raise_if user.mfa_active mfa_already_enabled
    modify (
        put_factor (
          create_pending factor_id gsg_id
            (services.encrypt_secret iv (services.generate_totp_secret seed))
            (map services.hash_recovery_code codes) now))
    pure (record {
      factor_id = factor_id;
      secret_base32 = services.generate_totp_secret seed;
      recovery_codes = codes;
    })

  -- `ConfirmMfaEnrollmentUseCase.execute`
  unfoldable pub confirm_enrollment : ℕ → ℕ → ℕ → Text → Task (Unit {0})
  confirm_enrollment now gsg_id factor_id code = do
    factor ← or_raise (← gets (λ s. find_by_key factor_key factor_id s.factors)) invalid_mfa_code
    secret ← or_raise (services.decrypt_secret factor.secret_chiffre) internal_error
    raise_if (not (services.verify_totp_code now secret code)) invalid_mfa_code
    modify (put_factor (activate now factor))
    user ← or_raise (← gets (λ s. find_by_key user_key gsg_id s.users)) user_not_found
    modify (put_user (enable_mfa now user))
    modify (emit (mfa_enabled gsg_id))

  -- The code is a recovery code of the factor: it is consumed, or else refused.
  unfoldable pub use_recovery_code : Text → MfaFactor → Task (Unit {0})
  use_recovery_code hash factor = do
    raise_if (not (any (λ h. text_eq h hash) factor.codes_recuperation_hashes)) invalid_mfa_code
    modify (put_factor (consume_recovery_code hash factor))

  -- `VerifyMfaChallengeUseCase.execute`
  unfoldable pub verify_challenge : ℕ → Fresh → Text → Text → Text → Text → Task Authenticated
  verify_challenge now fresh token code ip agent = do
    gsg_id ← or_raise (services.verify_mfa_challenge_token now token) unauthorized
    factor ← or_raise (← gets (λ s. find_active_by_user gsg_id s.factors)) invalid_mfa_code
    secret ← or_raise (services.decrypt_secret factor.secret_chiffre) internal_error
    if services.verify_totp_code now secret code
        then (pure tt)
        else (use_recovery_code (services.hash_recovery_code code) factor)
    complete_authentication_by_gsg_id services now fresh gsg_id ip agent

  -- `POST /v1/auth/mfa/verify`, under the transaction of every write request.
  unfoldable pub verify_request : ℕ → Fresh → Text → Text → Text → Text → Task Authenticated
  verify_request now fresh token code ip agent =
      intercept post (verify_challenge now fresh token code ip agent)
