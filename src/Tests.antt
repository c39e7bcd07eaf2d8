-- ===== src/Tests.antt =====
-- The theorems at concrete inputs, in the environment of Tests/Sample.antt.
mod Sample
mod Texts
mod Conditions
mod Keycloak
mod Lifecycle
mod Tokens
mod Server
mod ClientServer
mod Converges
mod System
mod Provision
mod Clients
mod Baseline
