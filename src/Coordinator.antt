-- ===== src/Coordinator.antt =====
-- The delivery coordinator (src/delivery/coordinator.ts and its two support files). The desktop and
-- the app-server plane are not run: what each call answers is given in a world, a record with an
-- answer for each call and a reading for each `Date.now()`. Interruption by the fiber's scope is not
-- modelled; a defect of a plane is an answer. What a delivery may write is its second result.
pub mod Support
pub mod Watch
pub mod Route
pub mod Deliver
pub mod Cases
pub mod Routes
pub mod Once
pub mod Fence
pub mod Broken
pub mod Breaker
pub mod Progress
pub mod Reconciliation
mod Examples
