-- ===== src/Outbox/Tests.antt =====
-- The relay on a table of one row.
use core_kernel.Prelude.{ℕ, ◌≡◌, refl, false, none, [], ◌∷◌, ◌++◌, map, codes, arith, inl, inr}
use core_kernel.Outbox.Table.{Row, StatutOutbox, en_attente, echec, KernelEvent}
use core_kernel.Outbox.Relay.{
  Relay, Weather, relayed, refused, published, cycled, swept, perform_all,
}
use core_kernel.Outbox.Delivery.{IsBacked, perform_all-IsBacked}
use core_kernel.Outbox.Outage.{IsUnsent}
use core_kernel.Outbox.Loss.{outage_loses_event}

abbrev row : ℕ → StatutOutbox → Row
row tentatives statut = record {
  id = 1;
  type_name = codes "org.created";
  gsg_org_id = none;
  horodatage = 5;
  produit_source = codes "gsg-org";
  charge_utile = codes "{}";
  statut = statut;
  tentatives = tentatives;
  derniere_erreur = none;
  cree_le = 5;
  publie_le = none;
}

abbrev table : Row → Relay
table r = record { rows = r ∷ []; stream = [] }

abbrev event : KernelEvent
event = record {
  type_name = codes "org.updated";
  gsg_org_id = none;
  horodatage = 6;
  produit_source = codes "gsg-org";
  charge_utile = codes "{}";
}

abbrev calm : Weather
calm = record { now = 9; outcome = λ id. relayed; stopped = λ id. false }

abbrev storm : Weather
storm = record { now = 9; outcome = λ id. refused (codes "ECONNREFUSED"); stopped = λ id. false }

waiting-IsBacked : IsBacked (table (row 0 en_attente))
waiting-IsBacked r (inl e) p = ground arith
waiting-IsBacked r (inr m) p = absurd m

perform_all-IsBacked_example :
    IsBacked (
      perform_all (published 2 event 6 ∷ cycled 50 calm ∷ swept 10 ∷ []) (table (row 0 en_attente)))
perform_all-IsBacked_example =
    perform_all-IsBacked (published 2 event 6 ∷ cycled 50 calm ∷ swept 10 ∷ [])
      (table (row 0 en_attente)) waiting-IsBacked

failed_row : IsUnsent 1 (row 10 echec) (table (row 10 echec))
failed_row = record { keyed = (refl, tt); found = refl; unsent = λ m. absurd m }

waiting_row : IsUnsent 1 (row 8 en_attente) (table (row 8 en_attente))
waiting_row = record { keyed = (refl, tt); found = refl; unsent = λ m. absurd m }

outage_loses_event_example :
    let s' =
      perform_all
        (map (cycled 50) (storm ∷ storm ∷ []) ++ (swept 10 ∷ cycled 50 calm ∷ []))
        (table (row 8 en_attente)) in
    (final : Row) × (final.statut ≡ echec) × IsUnsent 1 final s'
outage_loses_event_example =
    outage_loses_event 50 10 1 (storm ∷ storm ∷ []) (cycled 50 calm ∷ []) (row 8 en_attente)
      (table (row 8 en_attente)) waiting_row refl (ground arith) (ground arith)
      (λ i. (refl, codes "ECONNREFUSED", refl), (λ i. (refl, codes "ECONNREFUSED", refl), tt))
