-- ===== src/Controller/Component/Returning.antt =====
-- The sync of a component returns, whatever Helm answers, if there is a repository and Helm's releases
-- are complete.
use pluma_opeartor.Base.{◌≡◌, some}
use pluma_opeartor.Effects.{Returns_map}
use pluma_opeartor.Effects.Total.{Total}
use pluma_opeartor.Api.{HelmApp, HelmAppSpec, HelmRepo, HelmComponent}
use pluma_opeartor.Cluster.{Cluster}
use pluma_opeartor.Controller.Component.{reconcile_component}
use pluma_opeartor.Controller.Component.Complete.{CompleteLaws}
use pluma_opeartor.Controller.Component.Names.{Names, reconcile_component-Names}

pub reconcile_component-Total :
    (c : Cluster) (H : CompleteLaws c) (app : HelmApp) (spec : HelmAppSpec) (repo : HelmRepo)
    (component : HelmComponent) (cfg : c.Config)
    → app.spec ≡ some spec
    → spec.repo ≡ some repo
    → Total (reconcile_component c app component cfg)
reconcile_component-Total c H app spec repo component cfg e f = record {
  at = λ w.
      Returns_map (Names c component) (λ a v. Unit {0}) _
        (reconcile_component-Names c H app spec repo component cfg w e f) (λ a v h. tt);
}
