-- ===== src/Engine/Villes.antt =====
-- The consumer that counts the cities of each node
-- (src/referential-engine/infrastructure/messaging/ville-rattachee-consumer.service.ts).
use core_kernel.Prelude.{ℕ, Bool, true, false, Option, none, some, List, given, if◌then◌else◌}
use core_kernel.Engine.Hierarchy.{Compteur, incrementer, decrementer}

-- A message of the stream by its type and the members of its payload that are read. `malformed` has a
-- type that is read, and a payload that is no JSON text.
pub data VilleMessage : Type 0 where
  ville_created : Option ℕ → VilleMessage
  ville_moved : Option ℕ → Option ℕ → VilleMessage
  malformed : VilleMessage
  other : VilleMessage

-- Whether the two updates of the table succeed, and whether the acknowledgement does.
pub record Weather : Type 0 where
  pub first : Bool
  pub second : Bool
  pub acks : Bool

-- `if (noeudId) await …`, and whether it ends without an error
abbrev pub update_for :
    Bool → (ℕ → List Compteur → List Compteur) → Option ℕ → List Compteur → Bool × List Compteur
update_for succeeds f none cs = (true, cs)
update_for succeeds f (some id) cs = if succeeds then (true, f id cs) else (false, cs)

-- `handleMessage`: whether the message is acknowledged, and the table. An update stays when what comes
-- after it fails.
unfoldable pub handle_message : Weather → VilleMessage → List Compteur → Bool × List Compteur
handle_message w other cs = (w.acks, cs)
handle_message w malformed cs = (false, cs)
handle_message w (ville_created noeud) cs =
    let (done, cs') = update_for w.second incrementer (given noeud) cs in
    if done then (w.acks, cs') else (false, cs')
handle_message w (ville_moved ancien nouveau) cs =
    let (left, cs₁) = update_for w.first decrementer (given ancien) cs in
    let (done, cs₂) = update_for w.second incrementer (given nouveau) cs₁ in
    if left then (if done then (w.acks, cs₂) else (false, cs₂)) else (false, cs₁)
