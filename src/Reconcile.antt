-- ===== src/Reconcile.antt =====
-- The reconcilers of internal/controller: what they share, and a module for each kind.
pub mod Lifecycle
pub mod Status
pub mod Realm
pub mod OidcClient
pub mod Zone
pub mod Record
pub mod Issuer
pub mod Project
pub mod TenantSpace
pub mod Baseline
