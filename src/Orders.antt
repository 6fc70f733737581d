-- ===== src/Orders.antt =====
-- Orders (src/modules/orders): the state machine, the cutting plan and the service.
pub mod Status
pub mod Order
pub mod Plan
pub mod Transition
pub mod Lifecycle
pub mod Store
pub mod Reachable
mod Tests
