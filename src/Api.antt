-- ===== src/Api.antt =====
-- products/hermes/internal/api: the HTTP handlers that decide on more than the shape of a request.
pub mod Created
pub mod Routes
pub mod AgentRequests
pub mod Requests
pub mod Replies
pub mod Agents
pub mod Isolated
pub mod Admin
pub mod Server
pub mod Permitted
pub mod Update
pub mod Answers
pub mod Devices
pub mod Access
pub mod Statuses
