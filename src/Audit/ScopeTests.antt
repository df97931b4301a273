-- ===== src/Audit/ScopeTests.antt =====
-- A reader of a mother organisation asks for the events of its subsidiary.
use core_kernel.Prelude.{
  ℕ, ◌≡◌, refl, true, false, none, some, Option, List, [], ◌∷◌, Text, codes, length, Member, ok,
  text_eq, arith,
}
use core_kernel.Common.Parents.{walk, has_seen}
use core_kernel.Common.Ancestry.{Below}
use core_kernel.Org.Registry.{OrganisationRow, mere_of, is_descendant_or_self, is_descendant_of}
use core_kernel.Audit.Trail.{AuditEvenement}
use core_kernel.Audit.Query.{Reader, query_trail, query_audit_trail, is_selected, est_admin_noyau}
use core_kernel.Audit.Scope.{organisation_port, query_audit_trail_scoped}
use core_kernel.Audit.Tests.{event_row, question, answer}

abbrev row : ℕ → Option ℕ → OrganisationRow
row id mere = record {
  id = id;
  nom = codes "Org";
  organisation_mere_id = mere;
  pays_id = none;
  unite_administrative_id = none;
  ville_id = none;
  devise_id = none;
  langue_id = none;
  fuseau_horaire = none;
  est_actif = true;
  cree_le = 5;
  modifie_le = 5;
}

-- Identifiers stand for their lengths here: `m` is the mother of `o1`.
abbrev rows : List OrganisationRow
rows = row 1 none ∷ row 2 (some 1) ∷ []

abbrev mother : Reader
mother = record { roles = codes "org.owner" ∷ []; gsg_org_ids = codes "m" ∷ [] }

mother_answered :
    query_audit_trail (organisation_port length rows) mother question (event_row ∷ []) ≡ ok answer
unfolding query_audit_trail query_trail is_selected text_eq is_descendant_or_self is_descendant_of
    walk has_seen
mother_answered = refl

mother_no_admin : est_admin_noyau mother ≡ false
unfolding text_eq
mother_no_admin = refl

query_audit_trail_scoped_example :
    (org : Text) × (some (codes "o1") ≡ some org)
    × ((own : Text) × Member own (codes "m" ∷ []) × Below (mere_of rows) (length own) (length org))
    × ((b : AuditEvenement)
        → Member b (event_row ∷ [])
        → Member b (event_row ∷ []) × (b.gsg_org_id ≡ some org))
query_audit_trail_scoped_example =
    query_audit_trail_scoped length rows mother question (event_row ∷ []) answer
      (λ c t. ground arith) mother_no_admin mother_answered
