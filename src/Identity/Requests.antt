-- ===== src/Identity/Requests.antt =====
-- Requests that open or renew a session, and the rows of refresh tokens that they leave alone.
use core_kernel.Prelude.{
  ℕ, ◌+◌, ◌≡◌, ◌≢◌, sym, ap, ◌∙◌, true, false, not, Option, none, some, List, [], ◌∷◌, arith,
  Result, Bool, pure, bind_from, if◌then◌else◌, ok, err, Text, text_eq, any, All, find_by_key,
  find_by_key-save, find_by_key-Member, or_raise_cases, lift_cases, raise_if_cases, if_cases,
}
use core_kernel.Common.Email.{create_email}
use core_kernel.Common.Transaction.{settle}
use core_kernel.Identity.User.{User, IdentityError, assert_can_authenticate}
use core_kernel.Identity.Tokens.{RefreshToken, MfaFactor, issue, assert_valid_and_consume}
use core_kernel.Identity.Store.{
  Store, Task, Services, Fresh, put_token, token_key, user_key, find_by_email,
}
use core_kernel.Identity.Login.{
  LoginCommand, hash_for_comparison, LoginResult, login_request, authenticate, accept, refuse,
  check_password, complete_authentication, complete_authentication_by_gsg_id, refresh_token_ttl,
}
use core_kernel.Identity.Mfa.{
  verify_request, verify_challenge, use_recovery_code, find_active_by_user,
}
use core_kernel.Identity.Session.{RefreshCommand, renew, refresh, refresh_request}
use core_kernel.Identity.Rotation.{After, Fit, assert_valid-Fit, consume_cases, renew-After}

some-injective : {a b : RefreshToken} → some a ≡ some b → a ≡ b
some-injective e = cc

-- The requests that open or renew a session.
pub data AuthRequest : Type 0 where
  login_with : ℕ → Fresh → LoginCommand → AuthRequest
  answer_challenge : ℕ → Fresh → Text → Text → Text → Text → AuthRequest
  renew_with : ℕ → Fresh → RefreshCommand → AuthRequest

abbrev pub drawn_id : AuthRequest → ℕ
drawn_id (login_with now fresh c) = fresh.token_id
drawn_id (answer_challenge now fresh token code ip agent) = fresh.token_id
drawn_id (renew_with now fresh c) = fresh.token_id

unfoldable pub serve_auth : Services → AuthRequest → Store → Store
serve_auth services (login_with now fresh c) s = (login_request services now fresh c s).1
serve_auth services (answer_challenge now fresh token code ip agent) s =
    (verify_request services now fresh token code ip agent s).1
serve_auth services (renew_with now fresh c) s = (refresh_request services now fresh c s).1

-- Requests that the server runs one after the other.
unfoldable pub serve_all : Services → List AuthRequest → Store → Store
serve_all services [] s = s
serve_all services (r ∷ rs) s = serve_all services rs (serve_auth services r s)

-- What holds before a request, and after the work of one that succeeds, holds after the request.
settled :
    {A : Type 0} (P : Store → Type 0) (s : Store) (o : Result IdentityError A × Store)
    → P s
    → After P o
    → P (settle s o.0 o.1).1
settled P s (ok a, s') before after = after
settled P s (err e, s') before after = before

pub settled_ok :
    {A : Type 0} (s s' : Store) (a : A) (o : Result IdentityError A × Store)
    → settle s o.0 o.1 ≡ (ok a, s')
    → o ≡ (ok a, s')
settled_ok s s' a (ok b, t) h = h
settled_ok s s' a (err e, t) h = cc

bind-After :
    {A B : Type 0} (P : Store → Type 0) (f : A → Task B) (o : Result IdentityError A × Store)
    → After P o
    → ((a : A) (s : Store) → P s → After P (f a s))
    → After P (bind_from o.0 o.1 f)
bind-After P f (ok a, s) h next = next a s h
bind-After P f (err e, s) h next = tt

module _ (services : Services) (id : ℕ) (t : RefreshToken) where
  -- The row of this identifier is `t`.
  abbrev pub Stays : Store → Type 0
  Stays s = find_by_key token_key id s.tokens ≡ some t

  put-Stays : (x : RefreshToken) (s : Store) → x.id ≢ id → Stays s → Stays (put_token x s)
  put-Stays x s other h = ground (arith, find_by_key-save token_key id x s.tokens)

  complete-Stays :
      (now : ℕ) (fresh : Fresh) (u : User) (ip agent : Text) (s : Store)
      → fresh.token_id ≢ id
      → Stays s
      → After Stays (complete_authentication services now fresh u ip agent s)
  unfolding complete_authentication issue
  complete-Stays now fresh u ip agent s other h =
      put-Stays
        (issue fresh.token_id u.gsg_id (services.hash_refresh_token fresh.token_plain)
          fresh.family_id now (now + refresh_token_ttl) ip agent)
        s other h

  login-Stays :
      (now : ℕ) (fresh : Fresh) (c : LoginCommand) (s : Store)
      → fresh.token_id ≢ id
      → Stays s
      → After Stays (authenticate services now fresh c s)
  unfolding authenticate accept refuse complete_authentication
  login-Stays now fresh c s other h =
      or_raise_cases (After Stays) (create_email services.lower c.email) _ _ s
        (λ email _. go (find_by_email email s.users) (
          services.verify_password c.password
            (hash_for_comparison services fresh (find_by_email email s.users))))
        (λ _. tt)
    where
      refused : (o : Option User) → After Stays (refuse services now c.ip_address o s)
      refused none = tt
      refused (some u) =
          lift_cases (After Stays) (assert_can_authenticate now u) _ s (λ _ _. tt) (λ _ _. tt)

      go : (o : Option User) (b : Bool) → After Stays (check_password services now fresh c o b s)
      go (some u) true =
          lift_cases (After Stays) (assert_can_authenticate now u) _ s
            (λ _ _.
              if_cases {A = Task LoginResult} (λ m. After Stays (m s)) u.mfa_active _ _ (λ _. h)
                (λ _. complete-Stays now fresh u c.ip_address c.user_agent s other h))
            (λ _ _. tt)
      go (some u) false = refused (some u)
      go none true = refused none
      go none false = refused none

  verify-Stays :
      (now : ℕ) (fresh : Fresh) (token code ip agent : Text) (s : Store)
      → fresh.token_id ≢ id
      → Stays s
      → After Stays (verify_challenge services now fresh token code ip agent s)
  unfolding verify_challenge use_recovery_code complete_authentication_by_gsg_id
  verify-Stays now fresh token code ip agent s other h =
      or_raise_cases (After Stays) (services.verify_mfa_challenge_token now token) _ _ s
        (λ gsg_id _.
          or_raise_cases (After Stays) (find_active_by_user gsg_id s.factors) _ _ s
            (λ factor _.
              or_raise_cases (After Stays) (services.decrypt_secret factor.secret_chiffre) _ _ s
                (λ secret _.
                  bind-After Stays
                    (λ _. complete_authentication_by_gsg_id services now fresh gsg_id ip agent)
                    (checked secret factor s)
                    (if_cases {A = Task (Unit {0})} (λ m. After Stays (m s))
                      (services.verify_totp_code now secret code) _ _ (λ _. h) (λ _. used factor))
                    (λ _ s' h'. completed gsg_id s' h'))
                (λ _. tt))
            (λ _. tt))
        (λ _. tt)
    where
      checked : Text → MfaFactor → Task (Unit {0})
      checked secret factor =
          if services.verify_totp_code now secret code
          then pure tt
          else use_recovery_code services (services.hash_recovery_code code) factor

      used :
          (factor : MfaFactor)
          → After Stays (use_recovery_code services (services.hash_recovery_code code) factor s)
      used factor =
          raise_if_cases (After Stays)
            (not (
              any (λ x. text_eq x (services.hash_recovery_code code))
                factor.codes_recuperation_hashes))
            _ _ s (λ _. h) (λ _. tt)

      completed :
          (gsg_id : ℕ) (s' : Store)
          → Stays s'
          → After Stays (complete_authentication_by_gsg_id services now fresh gsg_id ip agent s')
      completed gsg_id s' h' =
          or_raise_cases (After Stays) (find_by_key user_key gsg_id s'.users) _ _ s'
            (λ u _. complete-Stays now fresh u ip agent s' other h') (λ _. tt)

  refresh-Stays :
      (used now : ℕ) (fresh : Fresh) (c : RefreshCommand) (s : Store)
      → t.consomme_le ≡ some used
      → fresh.token_id ≢ id
      → Stays s
      → After Stays (refresh services now fresh c s)
  unfolding refresh issue
  refresh-Stays used now fresh c s consumed other h =
      or_raise_cases (After Stays) (find_by_key token_key c.refresh_token_id s.tokens) _ _ s
        (λ token f.
          raise_if_cases (After Stays)
            (not (text_eq (services.hash_refresh_token c.refresh_token_plain) token.token_hash)) _ _
            s
            (λ _.
              consume_cases Stays now token.family_id (assert_valid_and_consume now token)
                (renew services now fresh c) s
                (λ u v.
                  renew-After services now fresh c Stays u s
                    (λ gsg_id. renewed token u gsg_id f (assert_valid-Fit now token u v))))
            (λ _. tt))
        (λ _. tt)
    where
      none-some : {n : ℕ} → ¬ (none ≡ some n)
      none-some e = cc

      differs :
          (token u : RefreshToken)
          → find_by_key token_key c.refresh_token_id s.tokens ≡ some token
          → Fit now token u
          → u.id ≢ id
      differs token u f (_, unused, _, e) same =
          let key = (find_by_key-Member token_key c.refresh_token_id token s.tokens f).1 in
          let at : c.refresh_token_id ≡ id = sym key ∙ sym (ap token_key e) ∙ same in
          let found : find_by_key token_key id s.tokens ≡ some token =
            sym (ap (λ i. find_by_key token_key i s.tokens) at) ∙ f in
          let here : token ≡ t = some-injective (sym found ∙ h) in
          none-some (sym unused ∙ ap (λ (x : RefreshToken). x.consomme_le) here ∙ consumed)

      renewed :
          (token u : RefreshToken) (gsg_id : ℕ)
          → find_by_key token_key c.refresh_token_id s.tokens ≡ some token
          → Fit now token u
          → Stays (
              put_token
                (issue fresh.token_id gsg_id
                  (services.hash_refresh_token fresh.token_plain)
                  u.family_id
                  now
                  (now + refresh_token_ttl)
                  c.ip_address
                  c.user_agent)
                (put_token u s))
      renewed token u gsg_id f fit =
          put-Stays
            (issue fresh.token_id gsg_id (services.hash_refresh_token fresh.token_plain) u.family_id
              now (now + refresh_token_ttl) c.ip_address c.user_agent)
            (put_token u s) other (put-Stays u s (differs token u f fit) h)

  serve_auth-Stays :
      (r : AuthRequest) (used : ℕ) (s : Store)
      → t.consomme_le ≡ some used
      → drawn_id r ≢ id
      → Stays s
      → Stays (serve_auth services r s)
  unfolding serve_auth login_request verify_request refresh_request
  serve_auth-Stays (login_with now fresh c) used s consumed other h =
      settled Stays s (authenticate services now fresh c s) h (login-Stays now fresh c s other h)
  serve_auth-Stays (answer_challenge now fresh token code ip agent) used s consumed other h =
      settled Stays s (verify_challenge services now fresh token code ip agent s) h
        (verify-Stays now fresh token code ip agent s other h)
  serve_auth-Stays (renew_with now fresh c) used s consumed other h =
      settled Stays s (refresh services now fresh c s) h
        (refresh-Stays used now fresh c s consumed other h)

  -- A consumed token stays as it is whatever is requested, if no request draws its identifier.
  pub serve_all-Stays :
      (rs : List AuthRequest) (used : ℕ) (s : Store)
      → t.consomme_le ≡ some used
      → All (λ r. drawn_id r ≢ id) rs
      → Stays s
      → Stays (serve_all services rs s)
  unfolding serve_all
  serve_all-Stays [] used s consumed others h = h
  serve_all-Stays (r ∷ rs) used s consumed others h =
      serve_all-Stays rs used (serve_auth services r s) consumed others.1
        (serve_auth-Stays r used s consumed others.0 h)
