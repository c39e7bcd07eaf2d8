-- ===== src/Dex.antt =====
-- What ClusterDex renders: internal/controller/clusterdex_application.go. The reconciler itself is
-- in Reconcile/Baseline.antt.
pub mod Image
pub mod Settings
pub mod HelmValues
pub mod Render
