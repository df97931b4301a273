-- ===== src/Identity/Rotation.antt =====
-- A refresh consumes the token that was presented. The use case answers a reuse by revoking the family;
-- the transaction of the request undoes that.
use core_kernel.Prelude.{
  ◌>>=◌, ◌>>◌, lift, ℕ, ◌+◌, ◌<◌, ◌≡◌, ◌≢◌, refl, subst, true, not, none, some, List, [], ◌∷◌,
  arith, Result, ok, err, text_eq, find_by_key, find_by_key-save, find_by_key-Member, save,
  Bool-cases, Option-cases, or_raise_cases, lift_cases, raise_if_cases, not-eq_false, inl, inr,
  is_some,
}
use core_kernel.Identity.User.{
  IdentityError, invalid_credentials, token_already_used, token_revoked, assert_can_authenticate,
}
use core_kernel.Identity.Tokens.{RefreshToken, issue, assert_valid_and_consume}
use core_kernel.Identity.Store.{Store, Task, Services, Fresh, put_token, token_key, user_key}
use core_kernel.Identity.Login.{Authenticated, refresh_token_ttl}
use core_kernel.Identity.Session.{
  RefreshCommand, renew, open_session, refresh, refresh_request, revoke_family, revoke_in,
  consume_or_revoke,
}

-- Every token of the family is revoked.
abbrev pub IsRevoked : ℕ → List RefreshToken → Type 0
IsRevoked family ts =
    (k : ℕ) (t : RefreshToken)
    → find_by_key token_key k ts ≡ some t
    → t.family_id ≡ family
    → is_some t.revoque_le ≡ true

revoke_family-IsRevoked :
    (now family : ℕ) (ts : List RefreshToken) → IsRevoked family (revoke_family now family ts)
unfolding revoke_family
revoke_family-IsRevoked now family [] k t h e = cc
revoke_family-IsRevoked now family (x ∷ xs) k t h e =
    ground (arith, revoke_family-IsRevoked now family xs k t)

-- What a refresh that succeeds says of the token that was presented, and leaves in the store.
pub record Rotated (services : Services) (now : ℕ) (fresh : Fresh) (c : RefreshCommand)
    (s s' : Store) : Type 0 where
  pub token : RefreshToken
  pub presented : find_by_key token_key c.refresh_token_id s.tokens ≡ some token
  pub hash_fits :
      text_eq (services.hash_refresh_token c.refresh_token_plain) token.token_hash ≡ true
  pub not_revoked : token.revoque_le ≡ none
  pub not_consumed : token.consomme_le ≡ none
  pub not_expired : now < token.expire_le
  pub consumed :
      find_by_key token_key c.refresh_token_id s'.tokens
      ≡ some (record token { consomme_le = some now })
  pub successor :
      (t : RefreshToken) × (find_by_key token_key fresh.token_id s'.tokens ≡ some t)
      × (t.family_id ≡ token.family_id)
      × (t.consomme_le ≡ none)
      × (t.revoque_le ≡ none)

-- The result is an error, or the store satisfies the predicate.
abbrev pub After : {A : Type 0} → (Store → Type 0) → Result IdentityError A × Store → Type 0
After P (ok _, s) = P s
After P (err _, _) = Unit

-- What a valid token is, and what consuming it changes.
abbrev pub Fit : ℕ → RefreshToken → RefreshToken → Type 0
Fit now t u =
    (t.revoque_le ≡ none)
    × (t.consomme_le ≡ none)
    × (now < t.expire_le)
    × (u ≡ record t { consomme_le = some now })

pub assert_valid-Fit :
    (now : ℕ) (t u : RefreshToken) → assert_valid_and_consume now t ≡ ok u → Fit now t u
unfolding assert_valid_and_consume
assert_valid-Fit now t u h = ground arith

pub consume_cases :
    (P : Store → Type 0) (now family : ℕ) (r : Result IdentityError RefreshToken)
    (f : RefreshToken → Task Authenticated) (s : Store)
    → ((u : RefreshToken) → r ≡ ok u → After P (f u s))
    → After P ((consume_or_revoke now family r >>= f) s)
consume_cases P now family (ok u) f s h = h u refl
consume_cases P now family (err token_already_used) f s h = tt
consume_cases P now family (err _) f s h = tt

module _ (services : Services) (now : ℕ) (fresh : Fresh) (c : RefreshCommand) where
  pub renew-After :
      (P : Store → Type 0) (u : RefreshToken) (t : Store)
      → ((gsg_id : ℕ)
          → P (
              put_token
                (issue fresh.token_id gsg_id
                  (services.hash_refresh_token fresh.token_plain)
                  u.family_id
                  now
                  (now + refresh_token_ttl)
                  c.ip_address
                  c.user_agent)
                (put_token u t)))
      → After P (renew services now fresh c u t)
  unfolding renew open_session
  renew-After P u t h =
      or_raise_cases (After P) (find_by_key user_key u.gsg_id t.users) invalid_credentials
        (λ user.
          lift (assert_can_authenticate now user)
          >> open_session services now fresh c u.family_id user)
        (put_token u t)
        (λ user _.
          lift_cases (After P) (assert_can_authenticate now user)
            (λ _. open_session services now fresh c u.family_id user) (put_token u t)
            (λ _ _. h user.gsg_id) (λ _ _. tt))
        (λ _. tt)

module _ (services : Services) (now : ℕ) (fresh : Fresh) (c : RefreshCommand) (s : Store)
    (drawn : fresh.token_id ≢ c.refresh_token_id) where
  rotated :
      (token user_token : RefreshToken) (gsg_id : ℕ)
      → find_by_key token_key c.refresh_token_id s.tokens ≡ some token
      → text_eq (services.hash_refresh_token c.refresh_token_plain) token.token_hash ≡ true
      → Fit now token user_token
      → Rotated services now fresh c s (
          put_token
            (issue fresh.token_id gsg_id
              (services.hash_refresh_token fresh.token_plain)
              user_token.family_id
              now
              (now + refresh_token_ttl)
              c.ip_address
              c.user_agent)
            (put_token user_token s))
  unfolding issue
  rotated token u gsg_id f h (r, n, x, e) =
      let key : token.id ≡ c.refresh_token_id =
        (find_by_key-Member token_key c.refresh_token_id token s.tokens f).1 in
      let t : RefreshToken =
        issue fresh.token_id gsg_id (services.hash_refresh_token fresh.token_plain) u.family_id now
          (now + refresh_token_ttl) c.ip_address c.user_agent in
      record {
        token = token;
        presented = f;
        hash_fits = h;
        not_revoked = r;
        not_consumed = n;
        not_expired = x;
        consumed = ground (
          arith,
          find_by_key-save token_key c.refresh_token_id t (save token_key u s.tokens),
          find_by_key-save token_key c.refresh_token_id u s.tokens,
        );
        successor = (
          t,
          ground (arith, find_by_key-save token_key fresh.token_id t (save token_key u s.tokens)),
          ground arith,
          refl,
          refl,
        );
      }

  rotates : After (Rotated services now fresh c s) (refresh services now fresh c s)
  unfolding refresh
  rotates =
      let P : Store → Type 0 = Rotated services now fresh c s in
      or_raise_cases (After P) (find_by_key token_key c.refresh_token_id s.tokens) _ _ s
        (λ token f.
          raise_if_cases (After P)
            (not (text_eq (services.hash_refresh_token c.refresh_token_plain) token.token_hash)) _ _
            s
            (λ h.
              consume_cases P now token.family_id (assert_valid_and_consume now token)
                (renew services now fresh c) s
                (λ u v. renew-After services now fresh c P u s (λ gsg_id.
                  rotated token u gsg_id f (not-eq_false _ h) (assert_valid-Fit now token u v))))
            (λ _. tt))
        (λ _. tt)

  -- A refresh that succeeds was given a known token with the right secret, neither revoked nor
  -- consumed nor expired, if the new identifier is not that of the presented token. It leaves that
  -- token consumed and a new, unused one of the same family.
  pub refresh_rotates :
      (a : Authenticated) (s' : Store)
      → refresh services now fresh c s ≡ (ok a, s')
      → Rotated services now fresh c s s'
  refresh_rotates a s' h = subst (After (Rotated services now fresh c s)) h rotates

module _ (services : Services) (now : ℕ) (fresh : Fresh) (c : RefreshCommand) (s : Store)
    (token : RefreshToken) (known : find_by_key token_key c.refresh_token_id s.tokens ≡ some token)
    (fits : text_eq (services.hash_refresh_token c.refresh_token_plain) token.token_hash
      ≡ true) where
  -- If a known token that comes with the right secret was consumed and is not revoked, the refresh
  -- is refused, and every token of its family is revoked in the store that the use case leaves.
  pub replay_revokes :
      (t : ℕ)
      → token.revoque_le ≡ none
      → token.consomme_le ≡ some t
      → (refresh services now fresh c s ≡ (err token_already_used, revoke_in now token.family_id s))
        × IsRevoked token.family_id (revoke_in now token.family_id s).tokens
  unfolding refresh assert_valid_and_consume
  replay_revokes t r e =
      (simp (known, fits, r, e), revoke_family-IsRevoked now token.family_id s.tokens)

  -- If a known token that comes with the right secret is revoked, the refresh is refused, and
  -- nothing changes.
  pub revoked_refused :
      is_some token.revoque_le ≡ true → refresh services now fresh c s ≡ (err token_revoked, s)
  unfolding refresh assert_valid_and_consume
  revoked_refused r = elim (Option-cases token.revoque_le) [
    | inl e ↦ absurd (ground arith)
    | inr (t, e) ↦ simp (known, fits, e)
  ]

  -- If a known token that comes with the right secret was consumed and is not revoked, the refresh
  -- request is refused and leaves the store as it was: the transaction undoes the revocation of
  -- the family.
  pub replay_request_forgotten :
      (t : ℕ)
      → token.revoque_le ≡ none
      → token.consomme_le ≡ some t
      → refresh_request services now fresh c s ≡ (err token_already_used, s)
  unfolding refresh_request
  replay_request_forgotten t r e = rw (replay_revokes t r e).0

-- If every token of a family is revoked, then a refresh with a known token of that family is
-- refused at any time, and nothing changes.
pub revoked_family_dead :
    (services : Services) (family now : ℕ) (fresh : Fresh) (c : RefreshCommand) (s : Store)
    (token : RefreshToken)
    → IsRevoked family s.tokens
    → find_by_key token_key c.refresh_token_id s.tokens ≡ some token
    → token.family_id ≡ family
    → (e : IdentityError) × (refresh services now fresh c s ≡ (err e, s))
revoked_family_dead services family now fresh c s token revoked known member =
    elim (Bool-cases
      (text_eq (services.hash_refresh_token c.refresh_token_plain) token.token_hash)) [
        | inl fits ↦ (
          token_revoked,
          revoked_refused services now fresh c s token known fits
              (revoked c.refresh_token_id token known member),
        )
        | inr wrong ↦ (invalid_credentials, unfold refresh in simp (known, wrong))
      ]
