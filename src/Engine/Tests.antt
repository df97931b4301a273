-- ===== src/Engine/Tests.antt =====
-- Runs of the referential engine on concrete data.
use core_kernel.Prelude.{
  zero, suc, ap, ℕ, ◌≡◌, ◌≢◌, ◌↔◌, refl, true, false, Option, none, some, List, [], ◌∷◌, arith, ok,
  codes, Text, is_some, All, find_by_key,
}
use core_kernel.Engine.Workflow as Workflow
use core_kernel.Engine.Noeud.{
  Noeud, Niveau, Details, slash, would_create_cycle, create_root, create_child,
}
use core_kernel.Engine.Chemin.{Writes, path}
use core_kernel.Engine.Hierarchy.{
  Store, CreateCommand, noeud_key, create_noeud, new_root, new_child, get_noeud,
  assert_niveau_defini, reattach_noeud, get_compte,
}
use core_kernel.Engine.Chains.{parent_in}
use core_kernel.Engine.Grown.{IsGrown, would_create_cycle_descends}
use core_kernel.Engine.Tree.{IsFree, IsChild, reattach_twice_closes_cycle}
use core_kernel.Engine.Versions.{
  CorpusElement, AttachCommand, parent_index, parent_of, would_create_cycle_in_corpus,
  CorpusVersionne,
}
use core_kernel.Engine.Corpus.{Corpora, attach_element, reattach_element}
use core_kernel.Common.Ancestry.{Below}
use core_kernel.Engine.Ancestry.{would_create_cycle_answers, would_create_cycle-Below}
use core_kernel.Engine.Forest.{IsForest}
use core_kernel.Engine.Placement.{empty, attached, reattached, reached-IsForest, IsNew}

-- Identifiers in unary digits.
abbrev unary : ℕ → Text
unary zero = []
unary (suc n) = b'1' ∷ unary n

unary-injective : (i j : ℕ) → unary i ≡ unary j → i ≡ j
unary-injective zero zero e = refl
unary-injective zero (suc j) e = cc
unary-injective (suc i) zero e = cc
unary-injective (suc i) (suc j) e = ap suc (unary-injective i j cc)

one-not_slash : b'1' ≢ slash
one-not_slash e = ground arith

unary-no_slash : (i : ℕ) → All (λ c. c ≢ slash) (unary i)
unary-no_slash zero = tt
unary-no_slash (suc i) = (one-not_slash, unary-no_slash i)

writes : Writes unary
writes = record { injective = unary-injective; no_slash = unary-no_slash }

abbrev named : Details
named = record { appellation_locale = codes "Nord"; ordre = none; est_noeud_terminal = none }

-- A country with two named levels, and a province in it.
abbrev level : ℕ → Niveau
level rang = record {
  id = rang;
  pays_id = 1;
  rang = rang;
  nom = codes "L";
  est_actif = true;
  cree_le = 0;
}

abbrev no_node : Store
no_node = record { noeuds = []; niveaux = level 1 ∷ level 2 ∷ []; compteurs = []; events = [] }

abbrev make_land : CreateCommand
make_land = record {
  pays_id = some 1;
  code_domaine = some (codes "ADM");
  parent_id = none;
  details = named;
}

abbrev make_province : CreateCommand
make_province = record { pays_id = none; code_domaine = none; parent_id = some 1; details = named }

abbrev grown_map : Store
grown_map = (create_noeud unary 0 2 make_province (create_noeud unary 0 1 make_land no_node).1).1

abbrev land : Noeud
land = create_root unary 1 1 (codes "ADM") named 0

abbrev province : Noeud
province = create_child unary 2 land named 0

grown_map-IsGrown : IsGrown unary grown_map
unfolding create_noeud new_root new_child get_noeud assert_niveau_defini create_root create_child
grown_map-IsGrown =
    IsGrown.grown 0 2 make_province (create_noeud unary 0 1 make_land no_node).1
      (IsGrown.grown 0 1 make_land no_node (IsGrown.bare no_node refl) refl) refl

land_there : find_by_key noeud_key 1 grown_map.noeuds ≡ some land
unfolding create_noeud new_root new_child get_noeud assert_niveau_defini create_root create_child
land_there = refl

province_there : find_by_key noeud_key 2 grown_map.noeuds ≡ some province
unfolding create_noeud new_root new_child get_noeud assert_niveau_defini create_root create_child
province_there = refl

would_create_cycle_descends_example :
    (would_create_cycle land.chemin province.chemin ≡ true) ↔ Below (parent_in grown_map.noeuds) 1 2
would_create_cycle_descends_example =
    would_create_cycle_descends unary writes 1 2 land province grown_map-IsGrown land_there
      province_there

abbrev node : ℕ → Option ℕ → List ℕ → Noeud
node id parent is = record {
  id = id;
  pays_id = 1;
  code_domaine = codes "ADM";
  parent_id = parent;
  chemin = path unary is;
  appellation_locale = codes "Nord";
  rang_normalise = 1;
  ordre = 0;
  est_noeud_terminal = false;
  est_actif = true;
  statut_workflow = Workflow.Statut.brouillon;
  cree_le = 0;
  modifie_le = 0;
}

abbrev region : Noeud
region = node 2 (some 1) (1 ∷ 2 ∷ [])

abbrev district : Noeud
district = node 3 (some 2) (1 ∷ 2 ∷ 3 ∷ [])

-- A country, a region in it and a district in the region.
abbrev map_of_three : Store
map_of_three = record {
  noeuds = node 1 none (1 ∷ []) ∷ region ∷ district ∷ [];
  niveaux = [];
  compteurs = [];
  events = [];
}

region-IsFree : IsFree 2 map_of_three
unfolding get_compte
region-IsFree = record { no_published = refl; no_villes = refl }

reattach_twice_closes_cycle_example :
    let (first, s1) = reattach_noeud unary 10 2 none map_of_three in
    let (second, s2) = reattach_noeud unary 10 2 (some 3) s1 in
    (first ≡ ok tt) × (second ≡ ok tt) × IsChild 2 3 s2.noeuds × IsChild 3 2 s2.noeuds
reattach_twice_closes_cycle_example =
    reattach_twice_closes_cycle unary writes 10 2 1 (2 ∷ 3 ∷ []) region district map_of_three refl
      refl refl (λ e. cc) (λ e. cc) refl region-IsFree refl (λ e. cc)

abbrev element : ℕ → Option ℕ → CorpusElement
element id parent = record {
  id = id;
  corpus_versionne_id = 5;
  referentiel_hierarchique_id = 2;
  parent_id = parent;
  nom = codes "Titre";
  valeur_ou_coefficient = none;
  metadata = none;
  ordre = 0;
  cree_le = 0;
  modifie_le = 0;
}

abbrev chapters : List CorpusElement
chapters = element 1 none ∷ element 2 (some 1) ∷ element 3 (some 2) ∷ []

would_create_cycle_answers_example : is_some (would_create_cycle_in_corpus chapters 1 3) ≡ true
would_create_cycle_answers_example = would_create_cycle_answers chapters 1 3

would_create_cycle-Below_example :
    (would_create_cycle_in_corpus chapters 1 3 ≡ some true) ↔ Below (parent_of chapters) 1 3
would_create_cycle-Below_example = would_create_cycle-Below chapters 1 3

abbrev code_civil : CorpusVersionne
code_civil = record {
  id = 5;
  pays_id = 1;
  code_domaine = codes "ADM";
  libelle_version = codes "2024";
  statut = Workflow.StatutCorpus.brouillon;
  date_publication = none;
  gouvernance = record {
    organisme_certificateur = codes "Etat";
    statut_confiance = codes "ELEVE";
    source = codes "JO";
    date_derniere_verification = 0;
  };
  cree_le = 0;
  modifie_le = 0;
}

abbrev library : Corpora
library = record { noeuds = region ∷ []; corpora = code_civil ∷ []; elements = []; events = [] }

abbrev chapter : AttachCommand
chapter = record {
  corpus_versionne_id = 5;
  referentiel_hierarchique_id = 2;
  parent_id = none;
  nom = codes "Titre";
  valeur_ou_coefficient = none;
  metadata = none;
  ordre = none;
}

library-IsNew : IsNew 1 library
unfolding parent_index
library-IsNew = record { given_id = λ e. cc; absent = refl; unnamed = λ k x e. cc }

reached-IsForest_example :
    IsForest (reattach_element 20 1 (some 1) (attach_element 10 1 chapter library).1).1
reached-IsForest_example =
    reached-IsForest (reattached 20 1 (some 1) (attached 10 1 chapter library-IsNew (empty refl)))
