-- ===== src/Org/Tests.antt =====
-- Runs of the registry of subscriptions on concrete rows.
use core_kernel.Prelude.{ℕ, Bool, true, some, [], ◌∷◌}
use core_kernel.Org.Abonnement.{resilie, Abonnement, Registry}

abbrev exists : ℕ → Bool
exists id = true

abbrev ended : Abonnement
ended = record {
  id = 1;
  organisation_id = 7;
  produit_id = 3;
  statut = resilie;
  date_debut = 10;
  date_fin = some 90;
}

abbrev registry : Registry
registry = record { abonnements = ended ∷ []; events = [] }
