-- ===== src/Istio.antt =====
-- internal/istio/iop.go: IstioOperator resources become HelmApp resources.
pub mod Resource
pub mod Step
pub mod Convert
pub mod Reconcile
