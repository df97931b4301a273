-- ===== src/AppConfig/Priority.antt =====
-- Which level a resolved parameter comes from.
use core_kernel.Prelude.{
  given, ℕ, ◌≡◌, ◌↔◌, refl, sym, ap, ◌∙◌, inl, inr, Option, none, some, List, [], ◌∷◌, ◌++◌, arith,
  ok, All, Option-cases, or_else,
}
use core_kernel.AppConfig.Heritage.{
  Niveau, ConfigurationGlobale, resolve_champ, resolve_tous_les_champs, defaut_fuseau, defaut_date,
  defaut_nombre,
}
use core_kernel.AppConfig.Resolve.{
  Ports, Command, AppConfigResponse, Referentiel, resolve_app_config, respond,
  configuration_or_default, unite_referentiel, niveaux, niveau_referentiel, niveau_pays,
  niveau_global, pays_defaults, pays_of, first_some,
}

-- The value is that of the first level that defines the field.
abbrev pub IsFirst : {A : Type 0} → List Niveau → (Niveau → Option A) → A → Type 0
IsFirst ns champ v =
    (before : List Niveau) × (n : Niveau) × (after : List Niveau) × (ns ≡ before ++ (n ∷ after))
    × All (λ m. champ m ≡ none) before
    × (champ n ≡ some v)

-- A field resolves to a value exactly if that is the value at the first level that defines the field.
pub resolve_champ-IsFirst :
    {A : Type 0} (ns : List Niveau) (champ : Niveau → Option A) (v : A)
    → (resolve_champ ns champ ≡ some v) ↔ IsFirst ns champ v
unfolding resolve_champ
resolve_champ-IsFirst {A = A} ns champ v = (found ns, kept ns)
  where
    found : (ns : List Niveau) → resolve_champ ns champ ≡ some v → IsFirst ns champ v
    found [] h = cc
    found (n ∷ ns) h = elim (Option-cases (champ n)) [
      | inl e ↦
          let (before, m, after, split, none_before, at) = found ns (rw (e, resolve_champ) at h) in
          (n ∷ before, m, after, ap (λ xs. n ∷ xs) split, (e, none_before), at)
      | inr (w, e) ↦ ([], n, ns, refl, tt, e ∙ (rw (e, resolve_champ) at h))
    ]

    skip :
        (before : List Niveau) (n : Niveau) (after : List Niveau)
        → All (λ m. champ m ≡ none) before
        → champ n ≡ some v
        → resolve_champ (before ++ (n ∷ after)) champ ≡ some v
    skip [] n after h at = rw at refl
    skip (b ∷ before) n after h at = rw h.0 (skip before n after h.1 at)

    kept : (ns : List Niveau) → IsFirst ns champ v → resolve_champ ns champ ≡ some v
    kept ns (before, n, after, split, h, at) = rw split (skip before n after h at)

-- Where the last level defines the field, the default is not used.
IsFirst-or_default :
    {A : Type 0} (before : List Niveau) (n : Niveau) (champ : Niveau → Option A) (v d : A)
    → champ n ≡ some v
    → IsFirst (before ++ (n ∷ [])) champ (or_else (resolve_champ (before ++ (n ∷ [])) champ) d)
unfolding resolve_champ
IsFirst-or_default {A = A} before n champ v d at =
    let (w, e) = resolved before in
    (resolve_champ-IsFirst (before ++ (n ∷ [])) champ
        (or_else (resolve_champ (before ++ (n ∷ [])) champ) d)).0
      (e ∙ ap (λ o. some (or_else o d)) (sym e))
  where
    resolved :
        (before : List Niveau) → (w : A) × (resolve_champ (before ++ (n ∷ [])) champ ≡ some w)
    resolved [] = (v, rw at refl)
    resolved (b ∷ before) = elim (Option-cases (champ b)) [
      | inl e ↦ let (w, q) = resolved before in (w, rw e q)
      | inr (w, e) ↦ (w, rw e refl)
    ]

-- `respond` and its levels.
abbrev IsFromLevels :
    Ports
    → Option Referentiel
    → Option Referentiel
    → Option Referentiel
    → ConfigurationGlobale
    → AppConfigResponse
    → Type 0
IsFromLevels ports u a o g r =
    IsFirst (niveaux ports u a o g) (λ n. n.fuseau_horaire) r.fuseau_horaire
    × IsFirst (niveaux ports u a o g) (λ n. n.format_date) r.format_date
    × IsFirst (niveaux ports u a o g) (λ n. n.format_nombre) r.format_nombre

respond_first :
    (ports : Ports) (u a o : Option Referentiel) (g : ConfigurationGlobale)
    → IsFromLevels ports u a o g (respond ports u a o g)
unfolding respond resolve_tous_les_champs
respond_first ports u a o g =
    let before =
      niveau_referentiel u
      ∷ niveau_referentiel a
      ∷ niveau_referentiel o
      ∷ niveau_pays (
          pays_defaults ports (given (first_some (pays_of u) (first_some (pays_of a) (pays_of o)))))
      ∷ [] in
    (
      IsFirst-or_default before (niveau_global g) (λ n. n.fuseau_horaire) g.fuseau_horaire
          defaut_fuseau refl,
      IsFirst-or_default before (niveau_global g) (λ n. n.format_date) g.format_date defaut_date
          refl,
      IsFirst-or_default before (niveau_global g) (λ n. n.format_nombre) g.format_nombre
          defaut_nombre refl,
    )

pub resolve_responds :
    (ports : Ports) (globale : Option ConfigurationGlobale) (now : ℕ) (c : Command)
    (r : AppConfigResponse)
    → resolve_app_config ports globale now c ≡ ok r
    → r
      ≡ respond ports
          (ports.get_referentiel c.gsg_id)
          (unite_referentiel ports (given c.unite_operationnelle_id) c.gsg_org_id)
          (ports.get_organisation_referentiel c.gsg_org_id)
          (configuration_or_default globale now)
unfolding resolve_app_config
resolve_responds ports globale now c r h = ground arith

-- If the resolution succeeds, then the time zone and the two formats of the answer are those of the
-- first level that defines them: the user, then the unit, then the organisation, then the country,
-- and last the stored global configuration, or where none is stored the one that is made of the
-- constants of the program. The country is that of the first of the user, the unit and the
-- organisation that names one.
pub resolved_from_levels :
    (ports : Ports) (globale : Option ConfigurationGlobale) (now : ℕ) (c : Command)
    (r : AppConfigResponse)
    → resolve_app_config ports globale now c ≡ ok r
    → let user = ports.get_referentiel c.gsg_id in
      let unite = unite_referentiel ports (given c.unite_operationnelle_id) c.gsg_org_id in
      let organisation = ports.get_organisation_referentiel c.gsg_org_id in
      let pays = first_some (pays_of user) (first_some (pays_of unite) (pays_of organisation)) in
      let levels =
        niveau_referentiel user
        ∷ niveau_referentiel unite
        ∷ niveau_referentiel organisation
        ∷ niveau_pays (pays_defaults ports (given pays))
        ∷ niveau_global (configuration_or_default globale now)
        ∷ [] in
      IsFirst levels (λ n. n.fuseau_horaire) r.fuseau_horaire
      × IsFirst levels (λ n. n.format_date) r.format_date
      × IsFirst levels (λ n. n.format_nombre) r.format_nombre
resolved_from_levels ports globale now c r h = rw (resolve_responds ports globale now c r h) (
    respond_first ports (ports.get_referentiel c.gsg_id)
      (unite_referentiel ports (given c.unite_operationnelle_id) c.gsg_org_id)
      (ports.get_organisation_referentiel c.gsg_org_id) (configuration_or_default globale now))
