-- ===== src/Cutting.antt =====
-- The cutting domain (src/cutting): its data, the optimizer of one board and of many.
pub mod Models
pub mod Guillotine
pub mod MultiSheet
mod Tests
