-- ===== src/Tests.antt =====
-- Runs of the models on concrete databases, and the theorems at them.
mod Sample
mod Rotation
mod Heartbeats
mod Updates
mod Networks
mod Hosts
mod Server
mod Scripts
mod Witness
mod Tokens
mod Requests
