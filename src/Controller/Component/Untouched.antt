-- ===== src/Controller/Component/Untouched.antt =====
-- What the calls for a component keep of the world.
use pluma_opeartor.Base.{
  String, Bool, true, false, Option, none, some, List, Option-cases, Bool-cases, inl, inr,
}
use pluma_opeartor.Values.{Fields}
use pluma_opeartor.Effects.{
  Result, ok, err, Outcome, done, panicked, Keeps, keeps_rules, is_release_not_found,
}
use pluma_opeartor.Api.{HelmApp, HelmAppSpec, HelmRepo, HelmComponent, HelmComponentStatus}
use pluma_opeartor.Cluster.{Cluster, Release, Install, Upgrade}
use pluma_opeartor.Controller.Component.{
  sync_release, sync_history, upgrade_if, run_install, run_upgrade, report_state, release_status,
  deploy_chart, reconcile_with_repo, reconcile_component,
}

-- The calls that the sync of a component makes keep the property: those that only read,
pub record ReadLaws (c : Cluster) (P : c.World → Type 0) : Type 1 where
  pub locate-P : (i : Install) (chart : String) (w : c.World) → P w → P (c.locate_chart i chart w).1
  pub load-P : (path : String) (w : c.World) → P w → P (c.load_chart path w).1
  pub history-P : (cfg : c.Config) (n : String) (w : c.World) → P w → P (c.history cfg n w).1
  pub build_infos-P :
      (cfg : c.Config) (m : String) (w : c.World) → P w → P (c.build_infos cfg m w).1

-- and the installs and upgrades.
pub record ComponentLaws (c : Cluster) (P : c.World → Type 0) : Type 1 where
  pub reads : ReadLaws c P
  pub install-P :
      (cfg : c.Config) (i : Install) (chart : c.Chart) (values : Fields) (w : c.World)
      → P w
      → P (c.install cfg i chart values w).1
  pub upgrade-P :
      (cfg : c.Config) (u : Upgrade) (n : String) (chart : c.Chart) (values : Fields) (w : c.World)
      → P w
      → P (c.upgrade cfg u n chart values w).1

module _ (c : Cluster) {P : c.World → Type 0} (R : ReadLaws c P) where
  report_state-Keeps :
      (cfg : c.Config) (status : HelmComponentStatus) (release : Release) (state : Option String)
      → Keeps P (report_state c cfg status release state)
  unfolding report_state
  report_state-Keeps cfg status release none = search keeps_rules
  report_state-Keeps cfg status release (some state) = search (keeps_rules, R.build_infos-P)

  pub release_status-Keeps :
      (cfg : c.Config) (status : HelmComponentStatus) (release : Option Release)
      → Keeps P (release_status c cfg status release)
  unfolding release_status
  release_status-Keeps cfg status none = search keeps_rules
  release_status-Keeps cfg status (some release) = report_state-Keeps cfg status release _

module _ (c : Cluster) {P : c.World → Type 0} (L : ComponentLaws c P) where
  open L use {reads, install-P, upgrade-P}
  open L.reads use {locate-P, load-P, history-P}

  upgrade_if-Keeps :
      (cfg : c.Config) (u : Upgrade) (component : HelmComponent) (chart : c.Chart) (values : Fields)
      (first : Option Release) (changed : Outcome Bool)
      → Keeps P (upgrade_if c cfg u component chart values first changed)
  unfolding upgrade_if run_upgrade
  upgrade_if-Keeps cfg u component chart values first panicked = search keeps_rules
  upgrade_if-Keeps cfg u component chart values first (done true) = search (keeps_rules, upgrade-P)
  upgrade_if-Keeps cfg u component chart values first (done false) = search keeps_rules

  sync_history-Keeps :
      (cfg : c.Config) (u : Upgrade) (component : HelmComponent) (chart : c.Chart) (values : Fields)
      (last first : Option Release)
      → Keeps P (sync_history c cfg u component chart values last first)
  unfolding sync_history run_upgrade
  sync_history-Keeps cfg u component chart values none first = search (keeps_rules, upgrade-P)
  sync_history-Keeps cfg u component chart values (some newest) first =
      upgrade_if-Keeps cfg u component chart values first _

  sync_release-Keeps :
      (cfg : c.Config) (i : Install) (u : Upgrade) (component : HelmComponent) (chart : c.Chart)
      (values : Fields) (history : Result (List Release))
      → Keeps P (sync_release c cfg i u component chart values history)
  unfolding sync_release run_install
  sync_release-Keeps cfg i u component chart values (ok history) =
      sync_history-Keeps cfg u component chart values _ _
  sync_release-Keeps cfg i u component chart values (err e) =
      elim (Bool-cases (is_release_not_found e)) [
        | inl b ↦ rw (b, sync_release) (search (keeps_rules, install-P))
        | inr b ↦ rw (b, sync_release) (search keeps_rules)
      ]

  deploy_chart-Keeps :
      (cfg : c.Config) (i : Install) (u : Upgrade) (component : HelmComponent) (chart : c.Chart)
      (values : Fields)
      → Keeps P (deploy_chart c cfg i u component chart values)
  unfolding deploy_chart
  deploy_chart-Keeps cfg i u component chart values =
      search (keeps_rules, history-P, sync_release-Keeps, release_status-Keeps c reads)

  reconcile_with_repo-Keeps :
      (app : HelmApp) (spec : HelmAppSpec) (repo : HelmRepo) (component : HelmComponent)
      (cfg : c.Config)
      → Keeps P (reconcile_with_repo c app spec repo component cfg)
  unfolding reconcile_with_repo
  reconcile_with_repo-Keeps app spec repo component cfg =
      search (keeps_rules, locate-P, load-P, deploy_chart-Keeps)

  pub reconcile_component-Keeps :
      (app : HelmApp) (component : HelmComponent) (cfg : c.Config)
      → Keeps P (reconcile_component c app component cfg)
  unfolding reconcile_component
  reconcile_component-Keeps app component cfg = elim (Option-cases app.spec) [
    | inl e ↦ rw (e, reconcile_component) (search keeps_rules)
    | inr (spec, e) ↦ elim (Option-cases spec.repo) [
      | inl f ↦ rw (e, f, reconcile_component) (search keeps_rules)
      | inr (repo, f) ↦
          rw (e, f, reconcile_component) (reconcile_with_repo-Keeps app spec repo component cfg)
    ]
  ]
