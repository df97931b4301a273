-- ===== src/Outbox/Delivery.antt =====
-- What is marked as published was handed to the stream (outbox-relay.service.ts).
use core_kernel.Prelude.{
  ℕ, ◌≡◌, refl, sym, ap, subst, ◌∙◌, inl, inr, true, false, List, [], ◌∷◌, ◌++◌, arith, Text, ◌==◌,
  if◌then◌else◌, Bool-cases, if_cases, Member, find_by_key, is_some,
}
use core_kernel.Outbox.Table.{
  Row, publie, KernelEvent, new_row, insert, mark_published, mark_failed_attempt,
  mark_permanently_failed, is_exhausted, row_key,
}
use core_kernel.Outbox.Relay.{
  Relay, Weather, Outcome, relayed, refused, unmarked, unrecorded, Step, published, cycled, swept,
  relay_one, add, relay_batch, run_cycle, sweep_permanent_failures, perform_all,
}
use core_kernel.Outbox.Rows.{map-Member, append-Member, Member-append_left, Member-append_right}
use core_kernel.Outbox.Table.{find_pending_batch}

-- Each published row has an entry in the stream.
abbrev pub IsBacked : Relay → Type 0
IsBacked s = (r : Row) → Member r s.rows → r.statut ≡ publie → Member r.id s.stream

marked_IsBacked :
    (id now : ℕ) (s : Relay)
    → IsBacked s
    → IsBacked (record s { rows = mark_published id now s.rows; stream = s.stream ++ (id ∷ []) })
unfolding mark_published
marked_IsBacked id now s b r m p =
    let (x, mx, e) = map-Member _ r s.rows m in
    elim (Bool-cases (x.id == id)) [
      | inl at ↦
          let q : r.id ≡ id = ground arith in Member-append_right r.id s.stream (id ∷ []) (inl q)
      | inr off ↦
          let q : r ≡ x = ground arith in
          Member-append_left r.id s.stream (id ∷ []) (
            subst (λ i. Member i s.stream) (sym (ap row_key q))
              (b x mx (sym (ap (λ y. y.statut) q) ∙ p)))
    ]

failed_IsBacked :
    (id : ℕ) (erreur : Text) (s : Relay)
    → IsBacked s
    → IsBacked (record s { rows = mark_failed_attempt id erreur s.rows })
unfolding mark_failed_attempt
failed_IsBacked id erreur s b r m p =
    let (x, mx, e) = map-Member _ r s.rows m in
    let q : r.id ≡ x.id = ground arith in
    let k : x.statut ≡ publie = ground arith in subst (λ i. Member i s.stream) (sym q) (b x mx k)

swept_IsBacked : (max : ℕ) (s : Relay) → IsBacked s → IsBacked (sweep_permanent_failures max s)
unfolding sweep_permanent_failures mark_permanently_failed
swept_IsBacked max s b r m p =
    let (x, mx, e) = map-Member _ r s.rows m in
    elim (Bool-cases (is_exhausted max x)) [
      | inl out ↦ ground arith
      | inr kept ↦
          let q : r ≡ x = ground arith in
          subst (λ i. Member i s.stream) (sym (ap row_key q))
            (b x mx (sym (ap (λ y. y.statut) q) ∙ p))
    ]

inserted_IsBacked :
    (id : ℕ) (e : KernelEvent) (now : ℕ) (s : Relay)
    → IsBacked s
    → IsBacked (record s { rows = insert id e now s.rows })
unfolding insert
inserted_IsBacked id e now s b r m p = elim (Bool-cases (is_some (find_by_key row_key id s.rows))) [
  | inl there ↦ b r (rw there at m) p
  | inr new ↦ elim (append-Member r s.rows (new_row id e now ∷ []) (rw new at m)) [
    | inl old ↦ b r old p
    | inr fresh ↦ ground arith
  ]
]

added_IsBacked :
    (id : ℕ) (s : Relay) → IsBacked s → IsBacked (record s { stream = s.stream ++ (id ∷ []) })
added_IsBacked id s b r m p = Member-append_left r.id s.stream (id ∷ []) (b r m p)

-- A property that each attempt of the batch keeps is kept by the batch.
pub relay_batch_keeps :
    (P : Relay → Type 0) (w : Weather) (rs : List Row)
    → ((r : Row) → Member r rs → (s : Relay) → P s → P (relay_one w.now r (w.outcome r.id) s).1)
    → (s : Relay) → P s
    → P (relay_batch w rs s)
unfolding relay_batch
relay_batch_keeps P w [] keeps s p = p
relay_batch_keeps P w (r ∷ rs) keeps s p =
    let one = relay_one w.now r (w.outcome r.id) s in
    let p' : P one.1 = keeps r (inl refl) s p in
    if_cases P (w.stopped r.id) s (if one.0 then relay_batch w rs one.1 else one.1) (λ _. p)
      (λ _.
        if_cases P one.0 (relay_batch w rs one.1) one.1
          (λ _. relay_batch_keeps P w rs (λ r' m. keeps r' (inr m)) one.1 p') (λ _. p'))

relay_one-IsBacked :
    (now : ℕ) (r : Row) (o : Outcome) (s : Relay) → IsBacked s → IsBacked (relay_one now r o s).1
unfolding relay_one
relay_one-IsBacked now r relayed s b = marked_IsBacked r.id now s b
relay_one-IsBacked now r (refused erreur) s b = failed_IsBacked r.id erreur s b
relay_one-IsBacked now r (unmarked erreur) s b =
    failed_IsBacked r.id erreur (add r s) (added_IsBacked r.id s b)
relay_one-IsBacked now r (unrecorded true) s b = added_IsBacked r.id s b
relay_one-IsBacked now r (unrecorded false) s b = b

-- If each row marked as published has an entry in the stream, then it stays so whatever is published,
-- relayed and swept in whatever order, and however the attempts end.
pub perform_all-IsBacked : (es : List Step) (s : Relay) → IsBacked s → IsBacked (perform_all es s)
unfolding perform_all run_cycle
perform_all-IsBacked [] s b = b
perform_all-IsBacked (published id e now ∷ es) s b =
    perform_all-IsBacked es _ (inserted_IsBacked id e now s b)
perform_all-IsBacked (cycled size w ∷ es) s b = perform_all-IsBacked es _ (
    relay_batch_keeps IsBacked w (find_pending_batch size s.rows)
      (λ r m. relay_one-IsBacked w.now r (w.outcome r.id)) s b)
perform_all-IsBacked (swept max ∷ es) s b = perform_all-IsBacked es _ (swept_IsBacked max s b)
