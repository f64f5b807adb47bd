-- ===== src/Istio/Convert/Accepted.antt =====
-- A HelmApp that the conversion makes is one that the HelmApp controller can work on.
use pluma_opeartor.Base.{List, String, ◌≡◌, refl, sym, ◌∙◌, true, Option, none, some}
use pluma_opeartor.Effects.{GoError, ok, Returns, Returns_map}
use pluma_opeartor.Api.{HelmApp, HelmAppSpec, HelmRepo}
use pluma_opeartor.Cluster.{Cluster}
use pluma_opeartor.Controller.Component.Complete.{CompleteLaws}
use pluma_opeartor.Controller.Reconcile.{reconcile}
use pluma_opeartor.Constants.{helm_app_finalizer}
use pluma_opeartor.Controller.Delete.{CtrlResult}
use pluma_opeartor.Controller.Reconcile.Statuses.{component_names}
use pluma_opeartor.Controller.Reconcile.Reports.{Reports, reconcile-Reports}
use pluma_opeartor.Istio.Convert.Names.{spec_names, expected_names, convert-names}
use pluma_opeartor.Istio.Step.{value, Gives, Gives-any, Gives-value, bind-Gives, from_result}
use pluma_opeartor.Istio.Resource.{IstioOperator, IopSpec, Library}
use pluma_opeartor.Istio.Convert.{
  merge_iop_with_profile, build_components, chart_version, spec_components, helm_app_of,
  convert_spec, convert_iop_to_helm_app,
}

-- The spec and its repository are there.
abbrev HasRepo : HelmApp → Type 0
HasRepo app =
    (spec : HelmAppSpec) × (repo : HelmRepo) × (app.spec ≡ some spec) × (spec.repo ≡ some repo)

module _ (lib : Library) where
  convert_spec-HasRepo :
      (dir : String) (input : IstioOperator) (spec : Option IopSpec)
      → Gives HasRepo (convert_spec lib dir input spec)
  unfolding convert_spec helm_app_of
  convert_spec-HasRepo dir input none = tt
  convert_spec-HasRepo dir input (some spec) =
      bind-Gives (λ iop. Unit {0}) HasRepo
        (from_result (λ e. e) (merge_iop_with_profile lib dir input)) _ (Gives-any _)
        (λ iop u.
          bind-Gives (λ components. Unit {0}) HasRepo
            (build_components lib input (chart_version lib spec.tag) iop (spec_components iop)) _
            (Gives-any _) (λ components t. (_, _, refl, refl)))

spec_names_of :
    (app : HelmApp) (spec : HelmAppSpec)
    → app.spec ≡ some spec
    → spec_names app ≡ component_names spec.components
spec_names_of app spec e = rw e refl

-- The statuses that the reconcile wrote bear the names, in order, and then come those of the removed
-- components that could not be uninstalled.
abbrev pub ReportsNames :
    (c : Cluster)
    → c.Config
    → List String
    → HelmApp
    → CtrlResult × Option GoError
    → c.World
    → Type 0
ReportsNames c cfg names stored r v =
    (spec : HelmAppSpec) × (stored.spec ≡ some spec)
    × (component_names spec.components ≡ names)
    × Reports c cfg stored spec r v

module _ (lib : Library) (dir : String) (input iop : IstioOperator) (iop_spec : IopSpec)
    (app stored : HelmApp) where
  -- The two controllers together: an IstioOperator is converted, with `iop` what the profile made of
  -- it, and the server has stored the spec of the HelmApp. Then the HelmApp controller's reconcile of
  -- the stored HelmApp, if that bears the finalizer and is not marked for deletion, the Helm client
  -- and its configuration come up, and Helm's releases have their info and chart, returns and writes
  -- a status that has one entry for each of the following, in this order and under the name that the
  -- conversion gives it: the base and istiod if they are enabled, each gateway that is enabled and
  -- has a name, and, with the empty name, cni and ztunnel if they are enabled. Behind these come only
  -- failed entries, of components that the stored status reports and that could not be uninstalled.
  pub converted-reconcile-Reports :
      (c : Cluster) (H : CompleteLaws c) (ns n : String) (w : c.World) (client : c.Registry)
      → input.spec ≡ some iop_spec
      → merge_iop_with_profile lib dir input ≡ ok iop
      → convert_iop_to_helm_app lib dir input ≡ value app
      → stored.spec ≡ app.spec
      → (c.get ns n w).0 ≡ ok stored
      → c.is_zero stored.meta.deletion_timestamp ≡ true
      → c.contains_finalizer stored.meta.finalizers helm_app_finalizer ≡ true
      → (c.new_registry_client (c.get ns n w).1).0 ≡ ok client
      → (c.init
          (c.configuration client)
          stored.meta.namespace
          (c.new_registry_client (c.get ns n w).1).1).0.0
        ≡ none
      → Returns (reconcile c ns n w) (
          ReportsNames c
            (c.init
              (c.configuration client)
              stored.meta.namespace
              (c.new_registry_client (c.get ns n w).1).1).0.1
            (expected_names input iop (spec_components iop))
            stored)
  unfolding convert_iop_to_helm_app
  converted-reconcile-Reports c H ns n w client i m k s g z b r t =
      let (spec, repo, p, q) =
        Gives-value HasRepo _ (convert_spec-HasRepo lib dir input input.spec) k in
      let names = (convert-names lib dir input iop iop_spec app i m k).0 in
      Returns_map (Reports c _ stored spec)
        (ReportsNames c _ (expected_names input iop (spec_components iop)) stored) _
        (reconcile-Reports c H stored spec repo (s ∙ p) q ns n w client g z b r t)
        (λ a v h. (spec, s ∙ p, sym (spec_names_of app spec p) ∙ names, h))
