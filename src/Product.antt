-- ===== src/Product.antt =====
-- The product catalogue (src/product): the entities, their workflow, and the use cases on price grids.
pub mod Errors
pub mod Workflow
pub mod LifeCycle
pub mod Catalogue
pub mod Produit
pub mod Offre
pub mod Feature
pub mod Grille
pub mod Tests
