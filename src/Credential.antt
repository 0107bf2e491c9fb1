-- ===== src/Credential.antt =====
-- products/hermes/internal/credential/service.go: the rotation of a device's DDNS credential.
pub mod Base
pub mod Advance
pub mod Finish
pub mod Runner
pub mod Invariant
pub mod Changes
pub mod Validate
pub mod Steps
pub mod Request
pub mod Stage
pub mod Confirm
pub mod Reconcile
pub mod Loop
pub mod Undo
pub mod History
