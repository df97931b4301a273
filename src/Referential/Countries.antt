-- ===== src/Referential/Countries.antt =====
-- The codes of countries stay unique.
use core_kernel.Prelude.{
  ℕ, ◌≡◌, refl, sym, ap, ◌∙◌, inl, inr, Bool, true, false, none, [], Text, trim, Bool-cases,
  find_by_key, Result, ok, err, modify, bind_from,
}
use core_kernel.Referential.Nomenclature.{
  Statut, NomenclatureError, NomenclatureEvent, deactivated, Nomenclature, emit, transition_row,
  publish_row, change_row,
}
use core_kernel.Referential.Codes.{
  IsCoded, Keeps, change_row-IsCoded, transition_row-IsCoded, publish_row-IsCoded, add_row-IsCoded,
}
use core_kernel.Referential.Entites.{
  Pays, CreatePays, PaysUpdates, is_iso_3166, create_pays, update_pays, activate_pays, pays_kind,
  add_pays, change_pays, deactivate_pays, reactivate_pays,
}

-- What a creation that succeeds gives has the identifier and the normalised code, and the code has the
-- form of ISO 3166-1.
create_pays-fits :
    (upper : Text → Text) (now id : ℕ) (c : CreatePays) (p : Pays)
    → create_pays upper now id c ≡ ok p
    → (p.id ≡ id) × (p.code_iso ≡ upper (trim c.code_iso)) × (is_iso_3166 p.code_iso ≡ true)
unfolding create_pays
create_pays-fits upper now id c p h = elim (Bool-cases (is_iso_3166 (upper (trim c.code_iso)))) [
  | inl e ↦
      let q = ok-injective (rw e at h) in
      (
        sym (ap (λ (x : Pays). x.id) q),
        sym (ap (λ (x : Pays). x.code_iso) q),
        ap (λ (x : Pays). is_iso_3166 x.code_iso) (sym q) ∙ e,
      )
  | inr e ↦ absurd (err-ok (rw e at h))
]
  where
    ok-injective : {a b : Pays} → Path (Result NomenclatureError Pays) (ok a) (ok b) → a ≡ b
    ok-injective h = cc

    err-ok : {e : NomenclatureError} {a : Pays} → err e ≡ ok a → ⊥
    err-ok h = cc

update-Keeps : (u : PaysUpdates) (now : ℕ) → Keeps pays_kind (update_pays u now)
unfolding update_pays
update-Keeps u now r = (refl, refl)

activate-Keeps : (b : Bool) (now : ℕ) → Keeps pays_kind (activate_pays b now)
unfolding activate_pays
activate-Keeps b now r = (refl, refl)

after_change :
    (e : NomenclatureEvent) (r : Result NomenclatureError (Unit {0})) (s : Nomenclature Pays)
    → IsCoded pays_kind s
    → IsCoded pays_kind (bind_from {B = Unit {0}} r s (λ _. modify (emit pays_kind e))).1
after_change e (ok _) s h = record { keyed = h.keyed; coded = h.coded }
after_change e (err _) s h = h

-- The tables of countries that requests lead to, from an empty one.
pub data IsMapped (upper : Text → Text) : Nomenclature Pays → Type 0 where
  empty : IsMapped upper (record { rows = []; events = [] })
  added :
      {s : Nomenclature Pays} (now id : ℕ) (c : CreatePays)
      → find_by_key pays_kind.id id s.rows ≡ none
      → IsMapped upper s
      → IsMapped upper (add_pays upper now id c s).1
  changed :
      {s : Nomenclature Pays} (u : PaysUpdates) (now id : ℕ)
      → IsMapped upper s
      → IsMapped upper (change_pays u now id s).1
  transitioned :
      {s : Nomenclature Pays} (to : Statut) (now id : ℕ)
      → IsMapped upper s
      → IsMapped upper (transition_row pays_kind to now id s).1
  published :
      {s : Nomenclature Pays} (now id : ℕ)
      → IsMapped upper s
      → IsMapped upper (publish_row pays_kind now id s).1
  deactivated_pays :
      {s : Nomenclature Pays} (now id : ℕ)
      → IsMapped upper s
      → IsMapped upper (deactivate_pays now id s).1
  reactivated_pays :
      {s : Nomenclature Pays} (now id : ℕ)
      → IsMapped upper s
      → IsMapped upper (reactivate_pays now id s).1

-- If to normalise a code again changes nothing: from an empty table, requests in any order, with new
-- identifiers for the countries that are created, never lead to two countries of one code.
pub mapped-IsCoded :
    (upper : Text → Text)
    → ((t : Text) → upper (trim (upper (trim t))) ≡ upper (trim t))
    → {s : Nomenclature Pays} → IsMapped upper s
    → IsCoded pays_kind s
unfolding add_pays change_pays deactivate_pays reactivate_pays
mapped-IsCoded upper stable empty = record { keyed = tt; coded = tt }
mapped-IsCoded upper stable (added {s = s} now id c absent h) =
    let n = upper (trim c.code_iso) in
    add_row-IsCoded pays_kind s (mapped-IsCoded upper stable h) n
      (create_pays upper now id (record c { code_iso = n }))
      (λ p e.
        let (i, code, _) = create_pays-fits upper now id (record c { code_iso = n }) p e in
        (code ∙ stable c.code_iso, ap (λ x. find_by_key pays_kind.id x s.rows) i ∙ absent))
mapped-IsCoded upper stable (changed {s = s} u now id h) =
    change_row-IsCoded pays_kind s (mapped-IsCoded upper stable h) (update_pays u now) id
      (update-Keeps u now)
mapped-IsCoded upper stable (transitioned {s = s} to now id h) =
    transition_row-IsCoded pays_kind s (mapped-IsCoded upper stable h) to now id (λ r. (refl, refl))
mapped-IsCoded upper stable (published {s = s} now id h) =
    publish_row-IsCoded pays_kind s (mapped-IsCoded upper stable h) now id (λ r. (refl, refl))
mapped-IsCoded upper stable (deactivated_pays {s = s} now id h) =
    after_change (deactivated id) (change_row pays_kind (activate_pays false now) id s).0
      (change_row pays_kind (activate_pays false now) id s).1
      (change_row-IsCoded pays_kind s (mapped-IsCoded upper stable h) (activate_pays false now) id
        (activate-Keeps false now))
mapped-IsCoded upper stable (reactivated_pays {s = s} now id h) =
    change_row-IsCoded pays_kind s (mapped-IsCoded upper stable h) (activate_pays true now) id
      (activate-Keeps true now)
