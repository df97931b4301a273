-- ===== src/Product/Grille.antt =====
-- Price grids (src/product/domain/entities/grille-tarifaire.entity.ts). A date is its number of
-- milliseconds.
pub mod Windows
pub mod Store
pub mod NoOverlap
pub mod Price
