-- ===== src/Identity/Once.antt =====
-- A refresh token works once in the requests of the server, and a reuse leaves its family alive.
use core_kernel.Prelude.{
  ℕ, ◌<◌, ◌≡◌, ◌≢◌, refl, none, some, List, arith, ok, err, text_eq, true, false, All, find_by_key,
  Result, leb,
}
use core_kernel.Identity.User.{User, IdentityError, token_already_used, assert_can_authenticate}
use core_kernel.Identity.Tokens.{RefreshToken, assert_valid_and_consume}
use core_kernel.Identity.Store.{Store, Services, Fresh, token_key, user_key}
use core_kernel.Identity.Login.{Authenticated}
use core_kernel.Identity.Session.{RefreshCommand, renew, open_session, refresh, refresh_request}
use core_kernel.Identity.Rotation.{refresh_rotates, replay_request_forgotten}
use core_kernel.Identity.Requests.{AuthRequest, drawn_id, serve_all, settled_ok, serve_all-Stays}

-- If a refresh request has succeeded, then after whatever logins, answers to challenges and refreshes
-- the server has handled since, a request with the same token is refused as a reuse and changes
-- nothing, if neither that refresh nor a later request draws the identifier of the token.
pub refresh_once :
    (services : Services) (now later : ℕ) (fresh fresh' : Fresh) (c : RefreshCommand)
    (rs : List AuthRequest) (s s' : Store) (a : Authenticated)
    → fresh.token_id ≢ c.refresh_token_id
    → All (λ r. drawn_id r ≢ c.refresh_token_id) rs
    → refresh_request services now fresh c s ≡ (ok a, s')
    → refresh_request services later fresh' c (serve_all services rs s')
      ≡ (err token_already_used, serve_all services rs s')
unfolding refresh_request
refresh_once services now later fresh fresh' c rs s s' a drawn others h =
    let r =
      refresh_rotates services now fresh c s drawn a s'
        (settled_ok s s' a (refresh services now fresh c s) h) in
    let spent : RefreshToken = record r.token { consomme_le = some now } in
    let stays =
      serve_all-Stays services c.refresh_token_id spent rs now s' refl others r.consumed in
    replay_request_forgotten services later fresh' c (serve_all services rs s') spent stays
      r.hash_fits now r.not_revoked refl

abbrev Renews : Result IdentityError Authenticated × Store → Type 0
Renews (ok _, _) = Unit
Renews (err _, _) = ⊥

Renews-ok :
    (o : Result IdentityError Authenticated × Store)
    → Renews o
    → (a : Authenticated) × (s : Store) × (o ≡ (ok a, s))
Renews-ok (ok a, s) h = (a, s, refl)
Renews-ok (err e, s) h = absurd h

-- A token that nothing stands against renews the session.
live-Renews :
    (services : Services) (now : ℕ) (fresh : Fresh) (c : RefreshCommand) (s : Store)
    (t : RefreshToken) (u : User)
    → find_by_key token_key c.refresh_token_id s.tokens ≡ some t
    → text_eq (services.hash_refresh_token c.refresh_token_plain) t.token_hash ≡ true
    → t.revoque_le ≡ none
    → t.consomme_le ≡ none
    → now < t.expire_le
    → find_by_key user_key t.gsg_id s.users ≡ some u
    → assert_can_authenticate now u ≡ ok tt
    → Renews (refresh_request services now fresh c s)
unfolding refresh_request refresh renew open_session assert_valid_and_consume
live-Renews services now fresh c s t u known fits r n lt found may =
    let le : leb t.expire_le now ≡ false = ground arith in rw (known, fits, r, n, le, found, may) tt

-- If a known token that comes with the right secret was consumed and is not revoked, then the request
-- with it is refused; but another token of its family that is neither revoked nor consumed nor expired,
-- and whose account may authenticate, still renews the session afterwards: the family survives.
pub replayed_family_lives :
    (services : Services) (now later used : ℕ) (fresh fresh' : Fresh) (c c' : RefreshCommand)
    (s : Store) (spent t : RefreshToken) (u : User)
    → find_by_key token_key c.refresh_token_id s.tokens ≡ some spent
    → text_eq (services.hash_refresh_token c.refresh_token_plain) spent.token_hash ≡ true
    → spent.revoque_le ≡ none
    → spent.consomme_le ≡ some used
    → find_by_key token_key c'.refresh_token_id s.tokens ≡ some t
    → text_eq (services.hash_refresh_token c'.refresh_token_plain) t.token_hash ≡ true
    → t.family_id ≡ spent.family_id
    → t.revoque_le ≡ none
    → t.consomme_le ≡ none
    → later < t.expire_le
    → find_by_key user_key t.gsg_id s.users ≡ some u
    → assert_can_authenticate later u ≡ ok tt
    → let (refused, s1) = refresh_request services now fresh c s in
      (refused ≡ err token_already_used)
      × (a : Authenticated) × (s2 : Store) × (refresh_request services later fresh' c' s1
          ≡ (ok a, s2))
replayed_family_lives services now later used fresh fresh' c c' s spent t u known fits r e known'
      fits' family r' n' lt found may =
    let (a, s2, renewed) =
      Renews-ok (refresh_request services later fresh' c' s)
        (live-Renews services later fresh' c' s t u known' fits' r' n' lt found may) in
    rw (replay_request_forgotten services now fresh c s spent known fits used r e)
      (refl, a, s2, renewed)
