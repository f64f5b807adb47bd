-- ===== src/Controller/Component/Steady.antt =====
-- A component whose release is as it is wanted: its sync only reads.
use pluma_opeartor.Base.{◌≡◌, Option, none, some, List, Option-cases, inl, inr}
use pluma_opeartor.Values.{IsMap}
use pluma_opeartor.Values.Equal.Laws.{NoNan}
use pluma_opeartor.Effects.{Result, ok, pure, ◌>>=◌, Keeps, keeps_rules}
use pluma_opeartor.Api.{HelmApp, HelmAppSpec, HelmRepo, HelmComponent, HelmComponentStatus}
use pluma_opeartor.Cluster.{Cluster, Release, Install, Upgrade}
use pluma_opeartor.Controller.Component.{
  last?, first?, error_message, error_or_nil, component_values, release_status, initial_status,
  deploy_chart, reconcile_with_repo, reconcile_component,
}
use pluma_opeartor.Controller.Component.Stable.{sync_release_stable}
use pluma_opeartor.Controller.Component.Untouched.{ReadLaws, release_status-Keeps}

-- The newest revision bears the wanted chart version, and the wanted values as its configuration.
pub record IsCurrent (c : Cluster) (spec : HelmAppSpec) (component : HelmComponent)
    (history : Result (List Release)) : Type 0 where
  pub releases : List Release
  pub newest : Release
  pub is_ok : history ≡ ok releases
  pub is_last : last? releases ≡ some newest
  pub version : newest.chart_version ≡ some component.version
  pub config : newest.config ≡ some (component_values c spec component)

-- What is reported of a release once it is in place.
report-Keeps :
    (c : Cluster) {P : c.World → Type 0} {A : Type 0} (R : ReadLaws c P) (cfg : c.Config)
    (s : HelmComponentStatus) (release : Option Release) (f : HelmComponentStatus → A)
    → Keeps P (release_status c cfg s release >>= λ status. pure (f status))
report-Keeps c R cfg s release f = search (keeps_rules, release_status-Keeps c R)

module _ (c : Cluster) {P : c.World → Type 0} (R : ReadLaws c P) (spec : HelmAppSpec)
    (component : HelmComponent) (cfg : c.Config) (u : IsMap (component_values c spec component))
    (z : NoNan (component_values c spec component))
    (k : (w : c.World) → P w → IsCurrent c spec component (c.history cfg component.name w).0) where
  deploy_chart-Keeps :
      (install : Install) (upgrade : Upgrade) (chart : c.Chart)
      → Keeps P
          (deploy_chart c cfg install upgrade component chart (component_values c spec component))
  unfolding deploy_chart error_message error_or_nil ◌>>=◌
  deploy_chart-Keeps install upgrade chart = record {
    at = λ w p.
        let h = k w p in
        let stable =
          sync_release_stable c cfg install upgrade component chart _ h.releases h.newest
            (c.history cfg component.name w).1 h.is_last h.version h.config u z in
        rw h.is_ok (
          rw stable (
            (report-Keeps c R cfg (initial_status component) (first? h.releases)
                (λ status. (record status { message = "" }, none))).at
              _ (R.history-P cfg component.name w p)));
  }

  reconcile_with_repo-Keeps :
      (app : HelmApp) (repo : HelmRepo)
      → Keeps P (reconcile_with_repo c app spec repo component cfg)
  unfolding reconcile_with_repo
  reconcile_with_repo-Keeps app repo =
      search (keeps_rules, R.locate-P, R.load-P, deploy_chart-Keeps)

  pub reconcile_component_steady :
      (app : HelmApp) → app.spec ≡ some spec → Keeps P (reconcile_component c app component cfg)
  unfolding reconcile_component
  reconcile_component_steady app e = elim (Option-cases spec.repo) [
    | inl f ↦ rw (e, f, reconcile_component) (search keeps_rules)
    | inr (repo, f) ↦ rw (e, f, reconcile_component) (reconcile_with_repo-Keeps app repo)
  ]
