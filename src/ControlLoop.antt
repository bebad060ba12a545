-- ===== src/ControlLoop.antt =====
-- internal/controlloop: the control loop and the validation of its plans.
pub mod Validation
pub mod Events
pub mod Batching
pub mod Cycle
pub mod Turns
pub mod Consistent
pub mod Kept
pub mod Cooldown
pub mod Plans
pub mod Registry
pub mod Summary
pub mod Logged
