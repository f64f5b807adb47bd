-- ===== src/Controller.antt =====
-- internal/controller/helmapp.go: the reconciler of HelmApp resources.
pub mod Phase
pub mod Uninstall
pub mod Component
pub mod Spared
pub mod Delete
pub mod Reconcile
