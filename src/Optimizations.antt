-- ===== src/Optimizations.antt =====
-- src/modules/optimizations: pools, patterns, pieces, half boards and prices.
pub mod Materials
pub mod Pool
pub mod HalfBoards
pub mod Pricing
pub mod Summary
pub mod Patterns
pub mod Pieces
pub mod Edges
mod Tests
mod RequestTests
mod EdgeTests
