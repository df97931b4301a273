-- ===== src/Audit/Query.antt =====
-- Who reads which part of the audit trail
-- (src/audit/application/use-cases/query-audit-trail.use-case.ts, and `queryTrail` of
-- src/audit/infrastructure/persistence/typeorm/orm-repositories.ts). Whether an organisation is
-- another one or a subsidiary of it is an argument, the port `isDescendantOrSelf`.
use core_kernel.Prelude.{
  ℕ, zero, suc, ◌-◌, ◌*◌, Bool, true, false, ◌&&◌, Option, none, some, List, [], ◌∷◌, Text, codes,
  text_eq, leb, if◌then◌else◌, any, filter, sort, length, Result, ok, err,
}
use core_kernel.Audit.Trail.{AuditEvenement}

-- `depuis` and `jusqua` are instants; the page and its size are at least one, which the
-- interface demands: a size of zero, which sets no limit in the query, does not come here.
pub record Query : Type 0 where
  pub gsg_org_id : Option Text
  pub type_name : Option Text
  pub depuis : Option ℕ
  pub jusqua : Option ℕ
  pub page : ℕ
  pub taille_par_page : ℕ

pub record Reader : Type 0 where
  pub roles : List Text
  pub gsg_org_ids : List Text

pub record AuditTrailPage : Type 0 where
  pub elements : List AuditEvenement
  pub total : ℕ
  pub page : ℕ
  pub taille_par_page : ℕ

pub data AuditTrailError : Type 0 where
  scope_required : AuditTrailError
  access_denied : Text → AuditTrailError

-- A filter that is absent or empty is none.
abbrev pub equals_filter : Option Text → Option Text → Bool
equals_filter none x = true
equals_filter (some []) x = true
equals_filter (some (c ∷ t)) none = false
equals_filter (some (c ∷ t)) (some x) = text_eq (c ∷ t) x

abbrev pub from_filter : Option ℕ → Option ℕ → Bool
from_filter none x = true
from_filter (some d) none = false
from_filter (some d) (some x) = leb d x

abbrev pub to_filter : Option ℕ → Option ℕ → Bool
to_filter none x = true
to_filter (some d) none = false
to_filter (some d) (some x) = leb x d

unfoldable pub is_selected : Query → AuditEvenement → Bool
is_selected q r =
    equals_filter q.gsg_org_id r.gsg_org_id
    && (equals_filter q.type_name (some r.type_name)
        && (from_filter q.depuis r.horodatage && to_filter q.jusqua r.horodatage))

abbrev pub is_later : Option ℕ → Option ℕ → Bool
is_later none y = false
is_later (some x) none = true
is_later (some x) (some y) = leb y x

-- `orderBy('audit.horodatage', 'DESC')`
abbrev pub latest_first : List AuditEvenement → List AuditEvenement
latest_first = sort (λ r x. is_later r.horodatage x.horodatage)

module _ {A : Type 0} where
  abbrev pub take : ℕ → List A → List A
  take zero xs = []
  take (suc n) [] = []
  take (suc n) (x ∷ xs) = x ∷ take n xs

  abbrev pub skip : ℕ → List A → List A
  skip zero xs = xs
  skip (suc n) [] = []
  skip (suc n) (x ∷ xs) = skip n xs

-- `queryTrail`
unfoldable pub query_trail : Query → List AuditEvenement → AuditTrailPage
query_trail q trail =
    let rows = latest_first (filter (is_selected q) trail) in
    record {
      elements = take q.taille_par_page (skip ((q.page - 1) * q.taille_par_page) rows);
      total = length rows;
      page = q.page;
      taille_par_page = q.taille_par_page;
    }

abbrev pub taille_page_max : ℕ
taille_page_max = 200

-- `Math.min(taille, TAILLE_PAGE_MAX)`
abbrev pub bounded : Query → Query
bounded q = record q {
  taille_par_page =
      if leb q.taille_par_page taille_page_max then q.taille_par_page else taille_page_max;
}

-- `estDansLePerimetre`
abbrev pub est_dans_le_perimetre : (Text → Text → Bool) → Text → List Text → Bool
est_dans_le_perimetre is_descendant_or_self demande = any (is_descendant_or_self demande)

abbrev pub est_admin_noyau : Reader → Bool
est_admin_noyau u = any (text_eq (codes "kernel.admin")) u.roles

abbrev pub check_scope :
    (Text → Text → Bool) → List Text → Option Text → Result AuditTrailError (Unit {0})
check_scope port owned none = err scope_required
check_scope port owned (some []) = err scope_required
check_scope port owned (some (c ∷ t)) =
    if est_dans_le_perimetre port (c ∷ t) owned then ok tt else err (access_denied (c ∷ t))

abbrev pub respond :
    Result AuditTrailError (Unit {0}) → AuditTrailPage → Result AuditTrailError AuditTrailPage
respond (ok _) page = ok page
respond (err e) page = err e

-- `QueryAuditTrailUseCase.execute`
unfoldable pub query_audit_trail :
    (Text → Text → Bool)
    → Reader
    → Query
    → List AuditEvenement
    → Result AuditTrailError AuditTrailPage
unfolding query_trail
query_audit_trail port u q trail =
    let page = query_trail (bounded q) trail in
    let scoped = respond (check_scope port u.gsg_org_ids q.gsg_org_id) page in
    if est_admin_noyau u then ok page else scoped
