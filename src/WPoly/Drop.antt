-- ===== src/WPoly/Drop.antt =====
-- Dimensions dropped from a WPoly: unconstrain, map_vars and filter_lambda of include/PolyWrap.h.
pub mod Dimensions
pub mod Moved
pub mod Unconstrain
pub mod Filter
pub mod Victims
