-- ===== src/Tests/Releases.antt =====
-- The HelmApp controller on the cluster in memory.
use mathlib.Core.List.{reverse}
use pluma_opeartor.Base.{
  ℕ, String, ◌≡◌, refl, ◌⊎◌, ◌↔◌, true, false, Option, none, some, List, [], ◌∷◌, All,
}
use pluma_opeartor.Values.{text, end, field, lookup}
use pluma_opeartor.Values.Paths.{at}
use pluma_opeartor.Effects.{ok, done, panicked, Returns, ◌>>=◌}
use pluma_opeartor.Api.{
  HelmApp, HelmAppSpec, HelmAppStatus, HelmRepo, HelmComponent, HelmComponentStatus, failed,
  succeeded, reconciling,
}
use pluma_opeartor.Constants.{helm_app_finalizer}
use pluma_opeartor.Cluster.{Cluster, Release, Install, Upgrade}
use pluma_opeartor.Controller.Phase.{calculate_overall_phase, HasFailed, IsDeployed}
use pluma_opeartor.Controller.Phase.Laws.{phase_verdict}
use pluma_opeartor.Controller.Component.{sync_release, run_upgrade}
use pluma_opeartor.Controller.Component.Stable.{changed_path_upgrades}
use pluma_opeartor.Controller.Delete.{delete_one, delete_loop, reconcile_delete}
use pluma_opeartor.Controller.Delete.Loop.{
  delete_reversed, delete_loop-refines, delete_loop-Kept, Kept,
}
use pluma_opeartor.Controller.Delete.Panic.{delete_without_status_panics}
use pluma_opeartor.Controller.Delete.Safety.{finalizer_guards_releases, AllGone}
use pluma_opeartor.Controller.Uninstall.{uninstall_component, uninstall_found, other_error}
use pluma_opeartor.Controller.Reconcile.{reconcile, desired_components, uninstall_removed}
use pluma_opeartor.Controller.Reconcile.Removed.{orphans, uninstall_each, uninstall_removed-orphans}
use pluma_opeartor.Api.{HelmResourceStatus}
use pluma_opeartor.Tests.Memory.{Store, memory, memory_laws, a_release}

abbrev pub status_of : String → String → HelmComponentStatus
status_of name status = record {
  name = name;
  status = status;
  message = "";
  version = "1";
  resources = [];
  resources_total = 0;
}

abbrev pub component_of : String → HelmComponent
component_of name = record {
  name = name;
  chart = name;
  version = "1.0.0";
  component_values = none;
  repo = none;
  ignore_global_values = false;
}

abbrev pub two_statuses : List HelmComponentStatus
two_statuses = status_of "base" "deployed" ∷ status_of "stuck" "deployed" ∷ []

abbrev pub repo : HelmRepo
repo = record { name = "istio"; url = "https://charts" }

abbrev pub spec : HelmAppSpec
spec = record {
  components = component_of "base" ∷ component_of "istiod" ∷ [];
  global_values = none;
  repo = some repo;
}

abbrev pub app_with : Option ℕ → Option HelmAppStatus → HelmApp
app_with deletion_timestamp status = record {
  meta = record {
    name = "mesh";
    namespace = "istio-system";
    labels = none;
    finalizers = helm_app_finalizer ∷ [];
    deletion_timestamp = deletion_timestamp;
  };
  spec = some spec;
  status = status;
}

abbrev pub a_status : HelmAppStatus
a_status = record { phase = succeeded; components = two_statuses }

abbrev pub world : Store
world = record { releases = "base" ∷ "stuck" ∷ "other" ∷ []; has_finalizer = true }

finalizer_guards_releases_example :
    Returns
      (reconcile_delete memory (app_with (some 5) (some a_status)) world)
      (λ r v. (v.has_finalizer ≡ true) ⊎ AllGone memory memory_laws "istio-system" two_statuses v)
finalizer_guards_releases_example =
    finalizer_guards_releases memory memory_laws (app_with (some 5) (some a_status)) a_status world
      refl refl

-- The stuck release keeps its status and the finalizer, and the other one is gone.
delete_loop_test : delete_loop memory tt 2 two_statuses true world ≡ (
  done (
    record (status_of "stuck" "failed") { message = "uninstall stuck error: timed out" } ∷ [],
    false,
  ),
  record { releases = "stuck" ∷ "other" ∷ []; has_finalizer = true },
)
unfolding delete_loop delete_one uninstall_component uninstall_found other_error ◌>>=◌
delete_loop_test = refl

delete_loop-refines_example :
    delete_loop memory tt 2 two_statuses true world
    ≡ delete_reversed memory tt (reverse two_statuses) [] true world
delete_loop-refines_example = delete_loop-refines memory tt two_statuses world

delete_loop-Kept_example :
    Returns (delete_loop memory tt 2 two_statuses true world) (Kept memory tt)
delete_loop-Kept_example = delete_loop-Kept memory tt two_statuses world

abbrev unreported : Cluster
unreported = record memory { get = λ ns n w. (ok (app_with (some 5) none), w) }

delete_without_status_panics_example :
    reconcile unreported "istio-system" "mesh" world ≡ (panicked, world)
delete_without_status_panics_example =
    delete_without_status_panics unreported (app_with (some 5) none) tt "istio-system" "mesh" world
      refl refl refl refl refl

uninstall_removed-orphans_example :
    uninstall_removed memory tt
      (desired_components (component_of "base" ∷ []) [])
      two_statuses
      world
    ≡ uninstall_each memory tt (orphans (component_of "base" ∷ []) two_statuses) world
uninstall_removed-orphans_example =
    uninstall_removed-orphans memory tt (component_of "base" ∷ []) two_statuses world

phase_verdict_example :
    let p = calculate_overall_phase memory (app_with none none) two_statuses in
    ((p ≡ failed) ↔ HasFailed memory two_statuses)
    × ((p ≡ succeeded) ↔ All (IsDeployed memory) two_statuses)
    × ((p ≡ reconciling)
        ↔ ((¬ HasFailed memory two_statuses) × (¬ All (IsDeployed memory) two_statuses)))
phase_verdict_example =
    phase_verdict memory (λ e. cc) (app_with none none) (status_of "base" "deployed")
      (status_of "stuck" "deployed" ∷ []) refl

abbrev install : Install
install = record {
  namespace = "istio-system";
  release_name = "base";
  version = "1.0.0";
  repo_url = "https://charts";
}

abbrev upgrade : Upgrade
upgrade = record { namespace = "istio-system"; repo_url = "https://charts"; version = "1.0.0" }

abbrev old_release : Release
old_release = record a_release { config = some (field "tag" (text "1.20") end) }

changed_path_upgrades_example :
    sync_release memory tt install upgrade
      (component_of "base")
      tt
      end
      (ok (old_release ∷ []))
      world
    ≡ run_upgrade memory tt upgrade (component_of "base") tt end world
unfolding at lookup
changed_path_upgrades_example =
    changed_path_upgrades memory tt install upgrade (component_of "base") tt end (old_release ∷ [])
      old_release world (field "tag" (text "1.20") end) ("tag" ∷ []) (text "1.20") "1.0.0" refl refl
      refl refl (λ h. h)

abbrev a_resource : HelmResourceStatus
a_resource = record {
  api_version = "v1";
  kind = "Service";
  name = "istiod";
  namespace = "istio-system";
}
