-- ===== src/Storcli.antt =====
-- src/megaraid_dashboard/storcli: what is read from the controller.
pub mod States
pub mod Models
pub mod Commands
pub mod Policy
pub mod Json
pub mod Parser
pub mod Responses
pub mod Prewrite
pub mod Runner
