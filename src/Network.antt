-- ===== src/Network.antt =====
-- products/hermes/internal/networkcontext/service.go: the network identity that a device reports.
pub mod ReportRules
pub mod Scopes
pub mod Stored
pub mod Address
pub mod Ranges
pub mod Wan
pub mod Flags
pub mod Input
pub mod Checks
pub mod Valid
pub mod Report
pub mod Contexts
pub mod Replaced
pub mod Recorded
pub mod Views
