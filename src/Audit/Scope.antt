-- ===== src/Audit/Scope.antt =====
-- What a reader of the audit trail can see.
use core_kernel.Prelude.{
  ℕ, zero, suc, ◌-◌, ◌*◌, ◌≤◌, ◌≡◌, refl, sym, subst, inl, inr, arith, Bool, true, false, ◌&&◌,
  Option, none, some, List, [], ◌∷◌, Text, text_eq_iff, filter, length, Member, filter-Member, ok,
  err, Bool-cases, sort-Member, any, ◌==◌,
}
use core_kernel.Common.Ancestry.{Below}
use core_kernel.Org.Registry.{OrganisationRow, mere_of, is_descendant_or_self}
use core_kernel.Org.Filiation.{is_descendant_or_self-Below}
use core_kernel.Audit.Trail.{AuditEvenement}
use core_kernel.Audit.Query.{
  Query, Reader, AuditTrailPage, AuditTrailError, is_selected, equals_filter, latest_first, take,
  skip, query_trail, query_audit_trail, est_dans_le_perimetre, est_admin_noyau, check_scope,
  respond, bounded,
}

take-Member : {A : Type 0} (n : ℕ) (b : A) (xs : List A) → Member b (take n xs) → Member b xs
take-Member zero b xs m = absurd m
take-Member (suc n) b [] m = absurd m
take-Member (suc n) b (x ∷ xs) m = ground (arith, take-Member n b xs)

skip-Member : {A : Type 0} (n : ℕ) (b : A) (xs : List A) → Member b (skip n xs) → Member b xs
skip-Member zero b xs m = m
skip-Member (suc n) b [] m = absurd m
skip-Member (suc n) b (x ∷ xs) m = inr (skip-Member n b xs m)

length-take : {A : Type 0} (n : ℕ) (xs : List A) → length (take n xs) ≤ n
length-take zero xs = omega arith
length-take (suc n) [] = omega arith
length-take (suc n) (x ∷ xs) = omega (arith, length-take n xs)

-- A page has rows of the trail that pass the filters.
page-Member :
    (q : Query) (b : AuditEvenement) (trail : List AuditEvenement)
    → Member b (query_trail q trail).elements
    → Member b trail × (is_selected q b ≡ true)
unfolding query_trail
page-Member q b trail m =
    filter-Member (is_selected q) b trail
      (sort-Member _ b _ (skip-Member _ b _ (take-Member q.taille_par_page b _ m)))

ok-injective : {p p' : AuditTrailPage} → respond (ok tt) p ≡ ok p' → p ≡ p'
ok-injective h = cc

allowed_scope :
    (port : Text → Text → Bool) (owned : List Text) (o : Option Text) (page page' : AuditTrailPage)
    → respond (check_scope port owned o) page ≡ ok page'
    → (c : ℕ) × (t : Text) × (o ≡ some (c ∷ t))
      × (est_dans_le_perimetre port (c ∷ t) owned ≡ true)
      × ((x : Option Text) → equals_filter o x ≡ true → x ≡ some (c ∷ t))
      × (page ≡ page')
allowed_scope port owned none page page' h = cc
allowed_scope port owned (some []) page page' h = cc
allowed_scope port owned (some (c ∷ t)) page page' h =
    elim (Bool-cases (est_dans_le_perimetre port (c ∷ t) owned)) [
      | inl inside ↦ (c, t, refl, inside, same, ok-injective (rw inside at h))
      | inr outside ↦ absurd (err-ok (rw outside at h))
    ]
  where
    err-ok : {e : AuditTrailError} {p : AuditTrailPage} → err e ≡ ok p → ⊥
    err-ok h = cc

    same : (x : Option Text) → equals_filter (some (c ∷ t)) x ≡ true → x ≡ some (c ∷ t)
    same none h = cc
    same (some x) h = let q = (text_eq_iff (c ∷ t) x).0 h in ground arith

any-Member :
    {A : Type 0} (p : A → Bool) (xs : List A)
    → any p xs ≡ true
    → (a : A) × Member a xs × (p a ≡ true)
any-Member p [] h = cc
any-Member p (x ∷ xs) h = elim (Bool-cases (p x)) [
  | inl e ↦ (x, inl refl, e)
  | inr e ↦ let (a, m, q) = any-Member p xs (rw e at h) in (a, inr m, q)
]

-- `OrganisationLookupAdapter`, which answers the port from the table of organisations. `read` is the
-- number that stands for an identifier there.
abbrev pub organisation_port : (Text → ℕ) → List OrganisationRow → Text → Text → Bool
organisation_port read rows organisation_id ancestor_id =
    is_descendant_or_self rows (read organisation_id) (read ancestor_id)

-- If no identifier but the empty one stands for 0: a reader without the administrator's role who gets
-- a page named an organisation from which going up the table of organisations, in any number of steps
-- or none, leads to one of the reader's own; and every event of the page is an event of the trail and
-- of that organisation.
pub query_audit_trail_scoped :
    (read : Text → ℕ) (rows : List OrganisationRow) (u : Reader) (q : Query)
    (trail : List AuditEvenement) (page : AuditTrailPage)
    → ((c : ℕ) (t : Text) → (read (c ∷ t) == 0) ≡ false)
    → est_admin_noyau u ≡ false
    → query_audit_trail (organisation_port read rows) u q trail ≡ ok page
    → (org : Text) × (q.gsg_org_id ≡ some org)
      × ((own : Text) × Member own u.gsg_org_ids × Below (mere_of rows) (read own) (read org))
      × ((b : AuditEvenement) → Member b page.elements → Member b trail × (b.gsg_org_id ≡ some org))
unfolding query_audit_trail is_selected
query_audit_trail_scoped read rows u q trail page nonzero other h =
    let port = organisation_port read rows in
    let (c, t, named, inside, same, e) =
      allowed_scope port u.gsg_org_ids q.gsg_org_id (query_trail (bounded q) trail) page
        (rw other at h) in
    let (own, owned, above) = any-Member (port (c ∷ t)) u.gsg_org_ids inside in
    (
      c ∷ t,
      named,
      (
        own,
        owned,
        (is_descendant_or_self-Below rows (read (c ∷ t)) (read own) (nonzero c t)).0 above,
      ),
      λ b m.
          let (there, selected) =
            page-Member (bounded q) b trail
              (subst (λ (p : AuditTrailPage). Member b p.elements) (sym e) m) in
          (there, same b.gsg_org_id (first-true _ _ selected)),
    )
  where
    first-true : (a b : Bool) → (a && b) ≡ true → a ≡ true
    first-true true b h = refl
    first-true false b h = cc

query_trail-length :
    (q : Query) (trail : List AuditEvenement)
    → length (query_trail (bounded q) trail).elements ≤ 200
unfolding query_trail
query_trail-length q trail =
    let n = (bounded q).taille_par_page in
    let rows = skip ((q.page - 1) * n) (latest_first (filter (is_selected (bounded q)) trail)) in
    let small : n ≤ 200 = ground arith in let cut = length-take n rows in omega arith

-- No page has more than 200 events, whatever was asked and whoever asked.
pub query_audit_trail_bounded :
    (port : Text → Text → Bool) (u : Reader) (q : Query) (trail : List AuditEvenement)
    (page : AuditTrailPage)
    → query_audit_trail port u q trail ≡ ok page
    → length page.elements ≤ 200
unfolding query_audit_trail
query_audit_trail_bounded port u q trail page h =
    let kept = query_trail-length q trail in
    let same : query_trail (bounded q) trail ≡ page = elim (Bool-cases (est_admin_noyau u)) [
      | inl admin ↦ ok-injective (rw admin at h)
      | inr other ↦
          let (_, _, _, _, _, e) =
            allowed_scope port u.gsg_org_ids q.gsg_org_id (query_trail (bounded q) trail) page
              (rw other at h) in
          e
    ] in
    subst (λ (p : AuditTrailPage). length p.elements ≤ 200) same kept
