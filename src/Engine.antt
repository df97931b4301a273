-- ===== src/Engine.antt =====
-- The referential engine (src/referential-engine): the administrative hierarchy, the rules
-- of its nodes and the versioned corpora.
pub mod Workflow
pub mod Noeud
pub mod Chemin
pub mod Chains
pub mod Hierarchy
pub mod Grown
pub mod Villes
pub mod Regles
pub mod Terminal
pub mod RegleTests
pub mod Tree
pub mod Versions
pub mod Corpus
pub mod Ancestry
pub mod Forest
pub mod Placement
pub mod Tests
