-- ===== src/Identity/SecondFactor.antt =====
-- The second factor: what it guards, and what it does not.
use core_kernel.Prelude.{
  ℕ, ◌≡◌, ◌≢◌, ◌∙◌, sym, refl, find_by_key-Member, Bool, true, false, not, none, some, List, [],
  ◌∷◌, arith, any, filter, Result, ok, err, Text, text_eq, text_eq_iff, ◌==◌, ==_refl, ◌+◌,
  find_by_key, find_by_key-save, save, Bool-cases, inl, inr, if◌then◌else◌,
}
use core_kernel.Identity.User.{User, IdentityError, invalid_mfa_code, enable_mfa}
use core_kernel.Identity.Tokens.{MfaFactor, activate, consume_recovery_code, RefreshToken, issue}
use core_kernel.Identity.Store.{
  Store, Services, Fresh, factor_key, user_key, token_key, resolve_roles, resolve_scopes,
}
use core_kernel.Identity.Login.{
  Authenticated, refresh_token_ttl, complete_authentication, complete_authentication_by_gsg_id,
}
use core_kernel.Identity.Mfa.{
  verify_challenge, use_recovery_code, confirm_enrollment, find_active_by_user,
}

-- The hash is one of the factor's recovery codes.
abbrev pub has_code : Text → MfaFactor → Bool
has_code hash f = any (λ h. text_eq h hash) f.codes_recuperation_hashes

any-filter-not :
    (hash : Text) (hs : List Text)
    → any (λ h. text_eq h hash) (filter (λ h. not (text_eq h hash)) hs) ≡ false
any-filter-not hash [] = refl
any-filter-not hash (h ∷ hs) = ground (arith, any-filter-not hash hs)

any-filter_other :
    (hash other : Text) (hs : List Text)
    → text_eq hash other ≡ false
    → any (λ h. text_eq h other) (filter (λ h. not (text_eq h hash)) hs)
      ≡ any (λ h. text_eq h other) hs
any-filter_other hash other [] n = refl
any-filter_other hash other (h ∷ hs) n =
    ground (arith, any-filter_other hash other hs n, text_eq_iff h hash, text_eq_iff h other)

-- Consuming a recovery code takes out that code and no other.
pub consume_recovery_code_exact :
    (hash other : Text) (f : MfaFactor)
    → has_code other (consume_recovery_code hash f)
      ≡ (if text_eq hash other then false else has_code other f)
unfolding consume_recovery_code
consume_recovery_code_exact hash other f = elim (Bool-cases (text_eq hash other)) [
  | inl e ↦
      rw e (rw (← (text_eq_iff hash other).0 e) (any-filter-not hash f.codes_recuperation_hashes))
  | inr e ↦ rw e (any-filter_other hash other f.codes_recuperation_hashes e)
]

-- What is answered is a session of the account: its access token has the account's identifier, roles
-- and organisations, and its refresh token is a new one of the account.
pub record OpensFor (services : Services) (now : ℕ) (fresh : Fresh) (gsg_id : ℕ) (s : Store)
    (o : Result IdentityError Authenticated × Store) : Type 0 where
  pub answer :
      o.0
      ≡ ok (record {
        access_token = services.issue_access_token now (record {
          gsg_id = gsg_id;
          roles = resolve_roles gsg_id s;
          gsg_org_ids = resolve_scopes gsg_id s;
          mfa_verified = true;
        });
        access_token_expires_in_seconds = services.access_ttl_seconds;
        refresh_token = fresh.token_plain;
      })
  pub kept :
      (t : RefreshToken) × (find_by_key token_key fresh.token_id o.1.tokens ≡ some t)
      × (t.gsg_id ≡ gsg_id)
      × (t.token_hash ≡ services.hash_refresh_token fresh.token_plain)

completes :
    (services : Services) (now : ℕ) (fresh : Fresh) (gsg_id : ℕ) (ip agent : Text) (s : Store)
    (u : User)
    → find_by_key user_key gsg_id s.users ≡ some u
    → OpensFor services now fresh gsg_id s
        (complete_authentication_by_gsg_id services now fresh gsg_id ip agent s)
unfolding complete_authentication_by_gsg_id complete_authentication issue
completes services now fresh gsg_id ip agent s u f =
    let at : u.gsg_id ≡ gsg_id = (find_by_key-Member user_key gsg_id u s.users f).1 in
    let t : RefreshToken =
      issue fresh.token_id u.gsg_id (services.hash_refresh_token fresh.token_plain) fresh.family_id
        now (now + refresh_token_ttl) ip agent in
    rw f (record {
      answer = rw at refl;
      kept = (
        t,
        find_by_key-save token_key fresh.token_id t s.tokens ∙ rw (==_refl fresh.token_id) refl,
        at,
        refl,
      );
    })

module _ (services : Services) (now : ℕ) (fresh : Fresh) (token code secret ip agent : Text)
    (s : Store) (gsg_id : ℕ) (factor : MfaFactor)
    (challenge : services.verify_mfa_challenge_token now token ≡ some gsg_id)
    (enrolled : find_active_by_user gsg_id s.factors ≡ some factor)
    (opened : services.decrypt_secret factor.secret_chiffre ≡ some secret) where
  -- If the challenge is valid and its account has an active factor whose secret can be read, then
  -- a code that is neither the current one nor a recovery code of the factor is refused, and
  -- nothing changes.
  pub wrong_code_refused :
      services.verify_totp_code now secret code ≡ false
      → has_code (services.hash_recovery_code code) factor ≡ false
      → verify_challenge services now fresh token code ip agent s ≡ (err invalid_mfa_code, s)
  unfolding verify_challenge use_recovery_code
  wrong_code_refused w n = simp (challenge, enrolled, opened, w, n)

  right_code :
      services.verify_totp_code now secret code ≡ true
      → verify_challenge services now fresh token code ip agent s
        ≡ complete_authentication_by_gsg_id services now fresh gsg_id ip agent s
  unfolding verify_challenge
  right_code r = simp (challenge, enrolled, opened, r)

  -- If the challenge is valid, its account exists and has an active factor whose secret can be
  -- read, then the current code opens a session of that account, whatever its status is and whether
  -- it is locked: the access token has that account's identifier, roles and organisations, and a new
  -- refresh token of that account is kept.
  pub right_code_opens :
      (u : User)
      → find_by_key user_key gsg_id s.users ≡ some u
      → services.verify_totp_code now secret code ≡ true
      → OpensFor services now fresh gsg_id s
          (verify_challenge services now fresh token code ip agent s)
  right_code_opens u f r = rw (right_code r) (completes services now fresh gsg_id ip agent s u f)

enabled :
    (now gsg_id : ℕ) (u : User) (s : Store)
    → u.gsg_id ≡ gsg_id
    → find_by_key user_key gsg_id (save user_key (enable_mfa now u) s.users)
      ≡ some (enable_mfa now u)
unfolding enable_mfa
enabled now gsg_id u s e =
    ground (arith, find_by_key-save user_key gsg_id (enable_mfa now u) s.users)

find_active-save_foreign :
    (g : ℕ) (f r : MfaFactor) (fs : List MfaFactor)
    → find_by_key factor_key r.id fs ≡ some f
    → (f.gsg_id == g) ≡ false
    → (r.gsg_id == g) ≡ false
    → find_active_by_user g (save factor_key r fs) ≡ find_active_by_user g fs
find_active-save_foreign g f r [] h a b = cc
find_active-save_foreign g f r (x ∷ xs) h a b = ground (arith, find_active-save_foreign g f r xs)

-- If a factor belongs to another account, its secret can be read and the code is the current one
-- of that secret, then the confirmation succeeds for an account that has no active factor: the
-- account then demands a second factor, and still has none.
pub foreign_factor_confirms :
    (services : Services) (now gsg_id factor_id : ℕ) (code secret : Text) (s : Store)
    (f : MfaFactor) (u : User)
    → find_by_key factor_key factor_id s.factors ≡ some f
    → f.gsg_id ≢ gsg_id
    → services.decrypt_secret f.secret_chiffre ≡ some secret
    → services.verify_totp_code now secret code ≡ true
    → find_by_key user_key gsg_id s.users ≡ some u
    → find_active_by_user gsg_id s.factors ≡ none
    → let (r, s') = confirm_enrollment services now gsg_id factor_id code s in
      (r ≡ ok tt)
      × (find_by_key user_key gsg_id s'.users ≡ some (enable_mfa now u))
      × (find_active_by_user gsg_id s'.factors ≡ none)
unfolding confirm_enrollment activate
foreign_factor_confirms services now gsg_id factor_id code secret s f u known foreign d v found
      none_yet =
    let factor : factor_id ≡ f.id =
      sym (find_by_key-Member factor_key factor_id f s.factors known).1 in
    let same : find_by_key factor_key f.id s.factors ≡ some f = rw factor at known in
    let other : (f.gsg_id == gsg_id) ≡ false = ground arith in
    let account : u.gsg_id ≡ gsg_id = (find_by_key-Member user_key gsg_id u s.users found).1 in
    let kept : find_by_key user_key gsg_id (save user_key (enable_mfa now u) s.users)
        ≡ some (enable_mfa now u) =
      enabled now gsg_id u s account in
    simp (known, d, v, found)
      (
        refl,
        kept,
        find_active-save_foreign gsg_id f (activate now f) s.factors same other other ∙ none_yet,
      )
