-- ===== src/Identity/Entry.antt =====
-- Who gets through the password step
-- (src/identity/application/use-cases/authenticate-user.use-case.ts).
use core_kernel.Prelude.{
  ℕ, ◌≡◌, refl, Bool, true, false, Option, none, some, Result, ok, err, Text, or_raise_cases,
  lift_cases, if_cases, subst,
}
use core_kernel.Common.Email.{create_email}
use core_kernel.Identity.User.{User, IdentityError, assert_can_authenticate}
use core_kernel.Identity.Store.{Task, Store, Services, Fresh, find_by_email}
use core_kernel.Identity.Login.{
  LoginCommand, LoginResult, Authenticated, authenticated, mfa_required, authenticate, accept,
  refuse, hash_for_comparison, dummy_password, complete_authentication, check_password,
}
use core_kernel.Identity.Lockout.{
  MayTry, assert_can_authenticate-MayTry, MayTry-assert_can_authenticate,
}

-- The result asks for the second factor.
abbrev pub is_challenge : LoginResult → Bool
is_challenge (authenticated _) = false
is_challenge (mfa_required _) = true

-- What a successful answer of `authenticate` says of the account.
abbrev pub PassedBy : Services → ℕ → Fresh → LoginCommand → Store → LoginResult → Type 0
PassedBy services now fresh c s r =
    (u : User) × (email : Text) × (create_email services.lower c.email ≡ some email)
    × (find_by_email email s.users ≡ some u)
    × (services.verify_password c.password (hash_for_comparison services fresh (some u)) ≡ true)
    × MayTry now u
    × (u.mfa_active ≡ is_challenge r)

abbrev Sound : (LoginResult → Type 0) → Result IdentityError LoginResult × Store → Type 0
Sound P (ok r, _) = P r
Sound P (err _, _) = Unit

accept-Sound :
    (services : Services) (now : ℕ) (fresh : Fresh) (c : LoginCommand) (u : User) (s : Store)
    → Sound (λ r. MayTry now u × (u.mfa_active ≡ is_challenge r)) (accept services now fresh c u s)
unfolding accept complete_authentication
accept-Sound services now fresh c u s =
    let P : LoginResult → Type 0 = λ r. MayTry now u × (u.mfa_active ≡ is_challenge r) in
    lift_cases (Sound P) (assert_can_authenticate now u) _ s
      (λ _ h.
        if_cases {A = Task LoginResult} (λ m. Sound P (m s)) u.mfa_active _ _
          (λ e. (assert_can_authenticate-MayTry now u h, e))
          (λ e. (assert_can_authenticate-MayTry now u h, e)))
      (λ _ _. tt)

refuse-Sound :
    (services : Services) (P : LoginResult → Type 0) (now : ℕ) (ip : Text) (o : Option User)
    (s : Store)
    → Sound P (refuse services now ip o s)
unfolding refuse
refuse-Sound services P now ip none s = tt
refuse-Sound services P now ip (some u) s =
    lift_cases (Sound P) (assert_can_authenticate now u) _ s (λ _ _. tt) (λ _ _. tt)

Sound-map :
    (P Q : LoginResult → Type 0) (o : Result IdentityError LoginResult × Store)
    → ((r : LoginResult) → P r → Q r)
    → Sound P o
    → Sound Q o
Sound-map P Q (ok r, s) f h = f r h
Sound-map P Q (err e, s) f h = tt

authenticate-Sound :
    (services : Services) (now : ℕ) (fresh : Fresh) (c : LoginCommand) (s : Store)
    → Sound (PassedBy services now fresh c s) (authenticate services now fresh c s)
unfolding authenticate
authenticate-Sound services now fresh c s =
    or_raise_cases (Sound P) (create_email services.lower c.email) _ _ s
      (λ email normal. go email normal (find_by_email email s.users) refl _ refl) (λ _. tt)
  where
    P : LoginResult → Type 0
    P = PassedBy services now fresh c s

    go :
        (email : Text)
        → create_email services.lower c.email ≡ some email
        → (o : Option User) → find_by_email email s.users ≡ o
        → (b : Bool)
        → services.verify_password c.password (hash_for_comparison services fresh o) ≡ b
        → Sound P (check_password services now fresh c o b s)
    go email normal (some u) f true v =
        Sound-map _ P (accept services now fresh c u s) (λ r h. (u, email, normal, f, v, h.0, h.1))
          (accept-Sound services now fresh c u s)
    go email normal none f true v = refuse-Sound services P now c.ip_address none s
    go email normal none f false v = refuse-Sound services P now c.ip_address none s
    go email normal (some u) f false v = refuse-Sound services P now c.ip_address (some u) s

-- A login that is answered with tokens, or with a challenge, named an account by its address, gave a
-- password that matches the hash compared with, and found the account active and not locked; tokens
-- come from this step only where no second factor is active.
pub authenticate_sound :
    (services : Services) (now : ℕ) (fresh : Fresh) (c : LoginCommand) (s : Store) (r : LoginResult)
    → (authenticate services now fresh c s).0 ≡ ok r
    → PassedBy services now fresh c s r
authenticate_sound services now fresh c s r h =
    let (o, s') = authenticate services now fresh c s in
    subst (λ x. Sound (PassedBy services now fresh c s) (x, s')) h
      (authenticate-Sound services now fresh c s)

-- The answer is a session.
abbrev IsEntered : Result IdentityError LoginResult × Store → Type 0
IsEntered (ok (authenticated _), _) = Unit
IsEntered (ok (mfa_required _), _) = ⊥
IsEntered (err _, _) = ⊥

IsEntered-authenticated :
    (o : Result IdentityError LoginResult × Store)
    → IsEntered o
    → (a : Authenticated) × (o.0 ≡ ok (authenticated a))
IsEntered-authenticated (ok (authenticated a), s) h = (a, refl)
IsEntered-authenticated (ok (mfa_required t), s) h = absurd h
IsEntered-authenticated (err e, s) h = absurd h

accept-IsEntered :
    (services : Services) (now : ℕ) (fresh : Fresh) (c : LoginCommand) (u : User) (s : Store)
    → MayTry now u
    → u.mfa_active ≡ false
    → IsEntered (accept services now fresh c u s)
unfolding accept complete_authentication
accept-IsEntered services now fresh c u s m off =
    rw (MayTry-assert_can_authenticate now u m)
      (if_cases {A = Task LoginResult} (λ k. IsEntered (k s)) u.mfa_active _ _ (λ e. cc) (λ _. tt))

authenticate-accept :
    (services : Services) (now : ℕ) (fresh : Fresh) (c : LoginCommand) (s : Store) (email : Text)
    (u : User)
    → create_email services.lower c.email ≡ some email
    → find_by_email email s.users ≡ some u
    → services.verify_password c.password (hash_for_comparison services fresh (some u)) ≡ true
    → authenticate services now fresh c s ≡ accept services now fresh c u s
unfolding authenticate
authenticate-accept services now fresh c s email u normal f w = rw (normal, f, w)

-- An account without a password, which is active, not locked and without a second factor, is
-- entered with the constant that the code hashes in place of a password, if the hash of a password
-- verifies against that password.
pub passwordless_account_entered :
    (services : Services) (now : ℕ) (fresh : Fresh) (c : LoginCommand) (s : Store) (email : Text)
    (u : User)
    → ((salt : ℕ) (p : Text) → services.verify_password p (services.hash_password salt p) ≡ true)
    → create_email services.lower c.email ≡ some email
    → find_by_email email s.users ≡ some u
    → u.password_hash ≡ none
    → MayTry now u
    → u.mfa_active ≡ false
    → c.password ≡ dummy_password
    → (a : Authenticated) × ((authenticate services now fresh c s).0 ≡ ok (authenticated a))
unfolding authenticate
passwordless_account_entered services now fresh c s email u verifies normal f n m off p =
    let compared : hash_for_comparison services fresh (some u)
        ≡ services.hash_password fresh.salt dummy_password =
      rw n in
    let w : services.verify_password c.password (hash_for_comparison services fresh (some u))
        ≡ true =
      rw (compared, p) (verifies fresh.salt dummy_password) in
    rw (authenticate-accept services now fresh c s email u normal f w) (
      IsEntered-authenticated (accept services now fresh c u s)
        (accept-IsEntered services now fresh c u s m off))
