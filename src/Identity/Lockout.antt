-- ===== src/Identity/Lockout.antt =====
-- What becomes of failed attempts at the password step
-- (src/identity/application/use-cases/authenticate-user.use-case.ts).
use core_kernel.Prelude.{
  ◌++◌, ltb, ℕ, ◌+◌, ◌≤◌, ◌<◌, ◌≡◌, refl, inl, inr, false, none, some, List, [], ◌∷◌, arith, ok,
  err, Text, Bool-cases, All, length, ◌∙◌, if◌then◌else◌,
}
use core_kernel.Common.Email.{create_email}
use core_kernel.Identity.User.{
  User, actif, account_locked, invalid_credentials, assert_can_authenticate,
  register_failed_authentication, is_locked,
}
use core_kernel.Identity.Store.{
  Store, Services, Fresh, put_user, emit, find_by_email, user_authentication_failed,
}
use core_kernel.Identity.Login.{
  LoginCommand, authenticate, accept, refuse, login_request, hash_for_comparison,
}

-- The account may try to authenticate: it is active and not locked.
pub record MayTry (now : ℕ) (u : User) : Type 0 where
  pub active : u.statut ≡ actif
  pub unlocked : is_locked now u.verrouille_jusqua ≡ false

-- The check passes exactly for an active account that is not locked.
pub assert_can_authenticate-MayTry :
    (now : ℕ) (u : User) → assert_can_authenticate now u ≡ ok tt → MayTry now u
unfolding assert_can_authenticate
assert_can_authenticate-MayTry now u h = record { active = ground arith; unlocked = ground arith }

pub MayTry-assert_can_authenticate :
    (now : ℕ) (u : User) → MayTry now u → assert_can_authenticate now u ≡ ok tt
unfolding assert_can_authenticate
MayTry-assert_can_authenticate now u h = ground arith

-- The failures of a list of times, in turn.
abbrev pub fail_at : List ℕ → User → User
fail_at [] u = u
fail_at (now ∷ nows) u = fail_at nows (register_failed_authentication now u)

last_or : ℕ → List ℕ → ℕ
last_or d [] = d
last_or d (x ∷ xs) = last_or x xs

failures_count :
    (nows : List ℕ) (u : User)
    → (fail_at nows u).tentatives_echouees ≡ u.tentatives_echouees + length nows
unfolding register_failed_authentication
failures_count [] u = omega arith
failures_count (now ∷ nows) u =
    omega (arith, failures_count nows (register_failed_authentication now u))

fail_at-append :
    (nows : List ℕ) (last : ℕ) (u : User)
    → fail_at (nows ++ (last ∷ [])) u ≡ register_failed_authentication last (fail_at nows u)
fail_at-append [] last u = refl
fail_at-append (now ∷ nows) last u = fail_at-append nows last (register_failed_authentication now u)

fail_at-statut : (nows : List ℕ) (u : User) → (fail_at nows u).statut ≡ u.statut
unfolding register_failed_authentication
fail_at-statut [] u = refl
fail_at-statut (now ∷ nows) u = fail_at-statut nows (register_failed_authentication now u)

-- What the check answers for an active account after a failure, four others being counted before.
check_after_failure :
    (last t : ℕ) (v : User)
    → 4 ≤ v.tentatives_echouees
    → v.statut ≡ actif
    → assert_can_authenticate t (register_failed_authentication last v)
      ≡ (if ltb t (last + 900000) then err (account_locked (last + 900000)) else ok tt)
unfolding register_failed_authentication assert_can_authenticate
check_after_failure last t v many active = rw active (ground arith)

-- After five failures or more, the last of them at `last`, the check that every login makes refuses
-- an active account at every time before `last` plus 900000 milliseconds, which is fifteen minutes,
-- with that time, and lets it pass from then on. The failures are those counted on the account, as
-- the entity counts them.
pub failures_lock :
    (nows : List ℕ) (last t : ℕ) (u : User)
    → 4 ≤ length nows
    → u.statut ≡ actif
    → assert_can_authenticate t (fail_at (nows ++ (last ∷ [])) u)
      ≡ (if ltb t (last + 900000) then err (account_locked (last + 900000)) else ok tt)
failures_lock nows last t u h active = rw (fail_at-append nows last u) (
    check_after_failure last t (fail_at nows u)
      (let k = failures_count nows u in omega (arith, k, h)) (fail_at-statut nows u ∙ active))

module _ (services : Services) (now : ℕ) (fresh : Fresh) (c : LoginCommand) (email : Text)
    (s : Store) (normal : create_email services.lower c.email ≡ some email) where
  -- A login for a known address whose account is active and locked until a later time is refused
  -- with that time, whatever the password is, and nothing changes.
  pub locked_refused :
      (u : User) (until : ℕ)
      → find_by_email email s.users ≡ some u
      → u.statut ≡ actif
      → u.verrouille_jusqua ≡ some until
      → now < until
      → authenticate services now fresh c s ≡ (err (account_locked until), s)
  unfolding authenticate accept refuse assert_can_authenticate
  locked_refused u until f a l h =
      rw (normal, f)
        (elim (Bool-cases
          (services.verify_password c.password (hash_for_comparison services fresh (some u)))) [
            | inl e ↦ rw e (ground arith)
            | inr e ↦ rw e (ground arith)
          ])

  -- A login for a known address whose account is active and not locked, with a password that does
  -- not match, is refused; the failure is counted on the account, and an event reports it.
  pub wrong_password_counts :
      (u : User)
      → find_by_email email s.users ≡ some u
      → MayTry now u
      → services.verify_password c.password (hash_for_comparison services fresh (some u)) ≡ false
      → authenticate services now fresh c s ≡ (
        err invalid_credentials,
        emit
            (user_authentication_failed u.gsg_id c.ip_address)
            (put_user (register_failed_authentication now u) s),
      )
  unfolding authenticate refuse
  wrong_password_counts u f m w = rw (normal, f, w, MayTry-assert_can_authenticate now u m)

  -- A login request for a known address whose account is active and not locked, with a password
  -- that does not match, is refused and leaves the store as it was: the transaction undoes the
  -- count.
  pub wrong_password_request :
      (u : User)
      → find_by_email email s.users ≡ some u
      → MayTry now u
      → services.verify_password c.password (hash_for_comparison services fresh (some u)) ≡ false
      → login_request services now fresh c s ≡ (err invalid_credentials, s)
  unfolding login_request
  wrong_password_request u f m w = rw (wrong_password_counts u f m w)

-- Login requests that the server runs one after the other.
abbrev pub Attempt : Type 0
Attempt = ℕ × Fresh × LoginCommand

unfoldable pub serve_logins : Services → List Attempt → Store → Store
serve_logins services [] s = s
serve_logins services ((now, fresh, c) ∷ rest) s =
    serve_logins services rest (login_request services now fresh c s).1

-- The attempt names the account's address and a password that does not match.
abbrev pub IsWrongGuess : Services → Store → User → Attempt → Type 0
IsWrongGuess services s u (now, fresh, c) =
    (email : Text) × (create_email services.lower c.email ≡ some email)
    × (find_by_email email s.users ≡ some u)
    × (services.verify_password c.password (hash_for_comparison services fresh (some u)) ≡ false)

-- If an account is active and has no lock, then however many requests name its address and a
-- password that does not match, the store stays as it is: no failure is counted, and the account
-- is never locked.
pub wrong_guesses_never_lock :
    (services : Services) (attempts : List Attempt) (s : Store) (u : User)
    → u.statut ≡ actif
    → u.verrouille_jusqua ≡ none
    → All (IsWrongGuess services s u) attempts
    → serve_logins services attempts s ≡ s
unfolding serve_logins
wrong_guesses_never_lock services [] s u a l h = refl
wrong_guesses_never_lock services ((now, fresh, c) ∷ rest) s u a l ((email, normal, f, w), h) =
    rw
      (wrong_password_request services now fresh c email s normal u f
        (record { active = a; unlocked = rw l }) w)
      (wrong_guesses_never_lock services rest s u a l h)
