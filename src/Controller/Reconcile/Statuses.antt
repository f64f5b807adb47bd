-- ===== src/Controller/Reconcile/Statuses.antt =====
-- The statuses that a reconcile writes.
use pluma_opeartor.Base.{String, ◌≡◌, refl, ap₂, some, List, [], ◌∷◌, map}
use pluma_opeartor.Effects.{◌>>=◌, Returns, bind-Returns}
use pluma_opeartor.Api.{HelmApp, HelmAppSpec, HelmRepo, HelmComponent, HelmComponentStatus}
use pluma_opeartor.Cluster.{Cluster}
use pluma_opeartor.Controller.Component.{reconcile_component}
use pluma_opeartor.Controller.Component.Complete.{CompleteLaws}
use pluma_opeartor.Controller.Component.Names.{Names, reconcile_component-Names}
use pluma_opeartor.Controller.Reconcile.{reconcile_components}

abbrev pub component_names : List HelmComponent → List String
component_names = map (λ (component : HelmComponent). component.name)

abbrev pub status_names : List HelmComponentStatus → List String
status_names = map (λ (s : HelmComponentStatus). s.name)

module _ (c : Cluster) (app : HelmApp) (spec : HelmAppSpec) (repo : HelmRepo)
    (H : CompleteLaws c) where
  -- A HelmApp whose spec names a repository, where Helm gives complete releases: the loop over any list of components returns, whatever
  -- the installs and upgrades answer, with one status for each component, in the same order and
  -- under the component's name.
  pub reconcile_components-names :
      (cfg : c.Config) (components : List HelmComponent) (w : c.World)
      → app.spec ≡ some spec
      → spec.repo ≡ some repo
      → Returns
          (reconcile_components c app cfg components w)
          (λ statuses v. status_names statuses ≡ component_names components)
  unfolding reconcile_components ◌>>=◌
  reconcile_components-names cfg [] w e f = refl
  reconcile_components-names cfg (component ∷ components) w e f =
      bind-Returns (Names c component)
        (λ statuses v. status_names statuses ≡ component_names (component ∷ components))
        (reconcile_component c app component cfg) _ w
        (reconcile_component-Names c H app spec repo component cfg w e f)
        (λ (status, x) v named.
          bind-Returns (λ statuses v. status_names statuses ≡ component_names components)
            (λ statuses v. status_names statuses ≡ component_names (component ∷ components))
            (reconcile_components c app cfg components) _ v
            (reconcile_components-names cfg components v e f)
            (λ statuses u rest. ap₂ (λ x xs. x ∷ xs) named rest))
