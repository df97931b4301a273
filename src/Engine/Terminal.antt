-- ===== src/Engine/Terminal.antt =====
-- While the nodes stay as they are, every rule belongs to a terminal node.
use core_kernel.Prelude.{
  ℕ, ◌≡◌, ◌⊎◌, refl, sym, ap, subst, ◌∙◌, inl, inr, Bool, true, false, Option, none, some, List, [],
  ◌∷◌, arith, Text, Result, ok, err, Member, find_by_key, find_by_key-Member, save, or_raise_cases,
  lift_cases, and_then, bind_from, if◌then◌else◌,
}
use core_kernel.Engine.Workflow.{
  Statut, EngineError, assert_transition_allowed, regle_not_attached_to_terminal_node,
  regle_not_found,
}
use core_kernel.Engine.Noeud.{Noeud}
use core_kernel.Engine.Hierarchy.{noeud_key}
use core_kernel.Engine.Versions.{create_gouvernance}
use core_kernel.Engine.Regles.{
  Regle, CreateRegle, RegleUpdates, Regles, regle_key, put_regle, terminal_node, create_regle,
  update_regle, govern_regle, move_regle, activate_regle, get_regle, add_regle, change_regle,
  change_regle_details, change_regle_gouvernance, transition_regle, publish_regle,
  set_regle_activation, emit_regle, regle_published,
}

-- The node of the rule is there, terminal, and of the same domain.
abbrev pub IsAttached : List Noeud → Regle → Type 0
IsAttached noeuds r =
    (n : Noeud) × (find_by_key noeud_key r.referentiel_hierarchique_id noeuds ≡ some n)
    × (n.est_noeud_terminal ≡ true)
    × (r.code_domaine ≡ n.code_domaine)

abbrev pub AllAttached : List Noeud → Regles → Type 0
AllAttached noeuds s = (r : Regle) → Member r s.regles → IsAttached noeuds r

save-Member :
    (r x : Regle) (xs : List Regle) → Member x (save regle_key r xs) → (x ≡ r) ⊎ Member x xs
save-Member r x [] m = m
save-Member r x (y ∷ ys) m = ground (arith, save-Member r x ys)

saved-AllAttached :
    (noeuds : List Noeud) (r : Regle) (s : Regles)
    → IsAttached noeuds r
    → AllAttached noeuds s
    → AllAttached noeuds (put_regle r s)
saved-AllAttached noeuds r s a h x m = elim (save-Member r x s.regles m) [
  | inl e ↦ subst (IsAttached noeuds) (sym e) a
  | inr k ↦ h x k
]

-- A change that keeps the node and the domain of a rule.
abbrev Keeps : (Regle → Result EngineError Regle) → Type 0
Keeps f =
    (r r' : Regle)
    → f r ≡ ok r'
    → (r'.referentiel_hierarchique_id ≡ r.referentiel_hierarchique_id)
      × (r'.code_domaine ≡ r.code_domaine)

kept-IsAttached :
    (noeuds : List Noeud) (r r' : Regle)
    → r'.referentiel_hierarchique_id ≡ r.referentiel_hierarchique_id
    → r'.code_domaine ≡ r.code_domaine
    → IsAttached noeuds r
    → IsAttached noeuds r'
kept-IsAttached noeuds r r' node domain (n, found, terminal, same) =
    (n, ap (λ i. find_by_key noeud_key i noeuds) node ∙ found, terminal, domain ∙ same)

changed-AllAttached :
    (noeuds : List Noeud) (f : Regle → Result EngineError Regle) (id : ℕ) (s : Regles)
    → Keeps f
    → AllAttached noeuds s
    → AllAttached noeuds (change_regle f id s).1
unfolding change_regle get_regle
changed-AllAttached noeuds f id s keeps h =
    or_raise_cases (λ (p : Result EngineError Regle × Regles). AllAttached noeuds p.1)
      (find_by_key regle_key id s.regles) regle_not_found _ s
      (λ r found.
        lift_cases (λ (p : Result EngineError Regle × Regles). AllAttached noeuds p.1) (f r) _ s
          (λ r' e.
            let (node, domain) = keeps r r' e in
            let at = (find_by_key-Member regle_key id r s.regles found).0 in
            saved-AllAttached noeuds r' s (kept-IsAttached noeuds r r' node domain (h r at)) h)
          (λ _ _. h))
      (λ _. h)

terminal_found :
    (o : Option Noeud) (n : Noeud)
    → terminal_node o ≡ some n
    → (o ≡ some n) × (n.est_noeud_terminal ≡ true)
terminal_found none n h = cc
terminal_found (some m) n h = chosen m.est_noeud_terminal refl h
  where
    terminal_flag : Option Noeud → Bool
    terminal_flag none = true
    terminal_flag (some x) = x.est_noeud_terminal

    chosen :
        (b : Bool)
        → m.est_noeud_terminal ≡ b
        → (if b then some m else none) ≡ some n
        → (some m ≡ some n) × (n.est_noeud_terminal ≡ true)
    chosen true e k = (k, sym (ap terminal_flag k) ∙ e)
    chosen false e k = cc

added-AllAttached :
    (noeuds : List Noeud) (now id : ℕ) (c : CreateRegle) (s : Regles)
    → AllAttached noeuds s
    → AllAttached noeuds (add_regle noeuds now id c s).1
unfolding add_regle create_regle
added-AllAttached noeuds now id c s h =
    or_raise_cases (λ (p : Result EngineError ℕ × Regles). AllAttached noeuds p.1)
      (terminal_node (find_by_key noeud_key c.referentiel_hierarchique_id noeuds))
      regle_not_attached_to_terminal_node _ s
      (λ n found.
        lift_cases (λ (p : Result EngineError ℕ × Regles). AllAttached noeuds p.1)
          (create_gouvernance c.organisme_certificateur c.statut_confiance c.source none now) _ s
          (λ g _.
            let (there, terminal) = terminal_found _ n found in
            saved-AllAttached noeuds (create_regle now id n.code_domaine g c) s
              (n, there, terminal, refl) h)
          (λ _ _. h))
      (λ _. h)

-- What requests make of the table of the rules, whether they fail or not, while the nodes stay as
-- they are.
pub data IsReached (noeuds : List Noeud) : Regles → Type 0 where
  empty : IsReached noeuds (record { regles = []; events = [] })
  added :
      (now id : ℕ) (c : CreateRegle) (s : Regles)
      → IsReached noeuds s
      → IsReached noeuds (add_regle noeuds now id c s).1
  detailed :
      (u : RegleUpdates) (now id : ℕ) (s : Regles)
      → IsReached noeuds s
      → IsReached noeuds (change_regle_details u now id s).1
  governed :
      (organisme statut source : Text) (now id : ℕ) (s : Regles)
      → IsReached noeuds s
      → IsReached noeuds (change_regle_gouvernance organisme statut source now id s).1
  moved :
      (to : Statut) (now id : ℕ) (s : Regles)
      → IsReached noeuds s
      → IsReached noeuds (transition_regle to now id s).1
  published :
      (now id : ℕ) (s : Regles) → IsReached noeuds s → IsReached noeuds (publish_regle now id s).1
  activated :
      (est_actif : Bool) (now id : ℕ) (s : Regles)
      → IsReached noeuds s
      → IsReached noeuds (set_regle_activation est_actif now id s).1

abbrev answered : Regle → Result EngineError Regle
answered = ok

ok-injective : {a b : Regle} → answered a ≡ answered b → a ≡ b
ok-injective h = cc

-- A change that is made after a check.
checked-Keeps :
    {A : Type 0} (m : Result EngineError A) (g : A → Regle) (r r' : Regle)
    → ((a : A)
        → ((g a).referentiel_hierarchique_id ≡ r.referentiel_hierarchique_id)
          × ((g a).code_domaine ≡ r.code_domaine))
    → and_then m (λ a. ok (g a)) ≡ ok r'
    → (r'.referentiel_hierarchique_id ≡ r.referentiel_hierarchique_id)
      × (r'.code_domaine ≡ r.code_domaine)
checked-Keeps (err e) g r r' k h = cc
checked-Keeps (ok a) g r r' k h =
    let e : r' ≡ g a = sym (ok-injective h) in
    (
      ap (λ (x : Regle). x.referentiel_hierarchique_id) e ∙ (k a).0,
      ap (λ (x : Regle). x.code_domaine) e ∙ (k a).1,
    )

moved-Keeps : (to : Statut) (now : ℕ) → Keeps (move_regle to now)
unfolding move_regle
moved-Keeps to now r r' h =
    checked-Keeps (assert_transition_allowed r.statut_workflow to)
      (λ _. record r { statut_workflow = to; modifie_le = now }) r r' (λ _. (refl, refl)) h

-- An event does not change the rules.
announced :
    (noeuds : List Noeud) (m : Result EngineError Regle × Regles)
    → AllAttached noeuds m.1
    → AllAttached noeuds
        (bind_from {B = Unit {0}} m.0 m.1
          (λ r s. (ok tt, emit_regle (regle_published r.id r.referentiel_hierarchique_id) s))).1
announced noeuds (ok r, s) h = h
announced noeuds (err e, s) h = h

-- While the nodes stay as they are: after requests in any order, from an empty table, every rule
-- belongs to a node that is there and terminal, and has its domain.
pub reached-IsAttached :
    (noeuds : List Noeud) {s : Regles}
    → IsReached noeuds s
    → (r : Regle) → Member r s.regles
    → IsAttached noeuds r
unfolding change_regle_details change_regle_gouvernance transition_regle publish_regle
    set_regle_activation update_regle activate_regle govern_regle
reached-IsAttached noeuds empty = λ r m. absurd m
reached-IsAttached noeuds (added now id c s h) =
    added-AllAttached noeuds now id c s (reached-IsAttached noeuds h)
reached-IsAttached noeuds (detailed u now id s h) =
    changed-AllAttached noeuds (λ r. ok (update_regle u now r)) id s
      (λ r r' h. checked-Keeps (ok tt) (λ _. update_regle u now r) r r' (λ _. (refl, refl)) h)
      (reached-IsAttached noeuds h)
reached-IsAttached noeuds (governed organisme statut source now id s h) =
    changed-AllAttached noeuds _ id s
      (λ r r' k.
        checked-Keeps (create_gouvernance organisme statut source none now)
          (λ g. govern_regle g now r) r r' (λ _. (refl, refl)) k)
      (reached-IsAttached noeuds h)
reached-IsAttached noeuds (moved to now id s h) =
    changed-AllAttached noeuds (move_regle to now) id s (moved-Keeps to now)
      (reached-IsAttached noeuds h)
reached-IsAttached noeuds (published now id s h) =
    announced noeuds (change_regle (move_regle Statut.publie now) id s) (
      changed-AllAttached noeuds (move_regle Statut.publie now) id s (moved-Keeps Statut.publie now)
        (reached-IsAttached noeuds h))
reached-IsAttached noeuds (activated est_actif now id s h) =
    changed-AllAttached noeuds (λ r. ok (activate_regle est_actif now r)) id s
      (λ r r' h.
        checked-Keeps (ok tt) (λ _. activate_regle est_actif now r) r r' (λ _. (refl, refl)) h)
      (reached-IsAttached noeuds h)
