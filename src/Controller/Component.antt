-- ===== src/Controller/Component.antt =====
-- `reconcileComponent` and `hasConfigChanged`: one component is installed, upgraded or left alone.
pub mod Complete
pub mod Names
pub mod Stable
pub mod Steady
pub mod Untouched
pub mod Returning
use pluma_opeartor.Base.{
  ℕ, ◌%◌, ◌^◌, String, Bool, true, false, not, ◌==◌, Option, none, some, List, [], ◌∷◌, map, length,
  if◌then◌else◌,
}
use pluma_opeartor.Base.Decimal.{itoa}
use pluma_opeartor.Values.{Fields}
use pluma_opeartor.Values.Merge.{merge_values}
use pluma_opeartor.Values.Equal.{deep_equal_maps}
use pluma_opeartor.Effects.{
  GoError, plain, Result, ok, err, Outcome, done, panicked, Action, pure, panic, call, ◌>>=◌,
  is_release_not_found, errorf, wrap, if_err,
}
use pluma_opeartor.Api.{
  HelmApp, HelmAppSpec, HelmComponent, HelmComponentStatus, HelmResourceStatus, HelmRepo,
}
use pluma_opeartor.Cluster.{Cluster, Release, Install, Upgrade, Info}

-- `reflect.DeepEqual` of a map that may be nil and one that is not.
abbrev same_config : Option Fields → Fields → Bool
same_config none values = false
same_config (some config) values = deep_equal_maps config values

-- The comparison, where the chart and its metadata are there.
unfoldable pub differs : String → Option Fields → Fields → String → Bool
differs version config new_values new_version =
    if not (version == new_version) then true else not (same_config config new_values)

-- A nil chart is dereferenced.
unfoldable pub has_config_changed : Release → Fields → String → Outcome Bool
unfolding differs
has_config_changed release new_values new_version = elim release.chart_version [
  | none ↦ panicked
  | some version ↦ done (differs version release.config new_values new_version)
]

-- `history[len(history)-1]` and `history[0]`
abbrev pub last? {ℓ} : {A : Type ℓ} → List A → Option A
last? [] = none
last? (x ∷ []) = some x
last? (x ∷ y ∷ xs) = last? (y ∷ xs)

abbrev pub first? {ℓ} : {A : Type ℓ} → List A → Option A
first? [] = none
first? (x ∷ xs) = some x

-- What `multierror.Append` adds after a failed action.
abbrev pub failures : String → Option GoError → List GoError
failures prefix none = []
failures prefix (some e) = errorf prefix e ∷ []

abbrev pub resource_status : Info → HelmResourceStatus
resource_status r = record {
  api_version = r.group_version;
  kind = r.kind;
  name = r.name;
  namespace = r.namespace;
}

-- The component status with which the function starts.
abbrev pub initial_status : HelmComponent → HelmComponentStatus
initial_status component = record {
  name = component.name;
  status = "unknown";
  message = "";
  version = "unknown";
  resources = [];
  resources_total = 0;
}

-- An early return.
abbrev pub give_up : HelmComponent → GoError → HelmComponentStatus × Option GoError
give_up component e = (record (initial_status component) { message = e.message }, some e)

module _ (c : Cluster) where
  unfoldable pub component_values : HelmAppSpec → HelmComponent → Fields
  unfolding merge_values
  component_values spec component =
      if component.ignore_global_values
      then c.as_map component.component_values
      else merge_values (c.as_map spec.global_values) (c.as_map component.component_values)

  run_install :
      c.Config → Install → c.Chart → Fields → Action c.World (Option Release × List GoError)
  run_install cfg install chart values = do
    (release, e) ← call (c.install cfg install chart values)
    pure (release, failures "failed to install release: " e)

  pub run_upgrade :
      c.Config
      → Upgrade
      → HelmComponent
      → c.Chart
      → Fields
      → Action c.World (Option Release × List GoError)
  run_upgrade cfg upgrade component chart values = do
    (release, e) ← call (c.upgrade cfg upgrade component.name chart values)
    pure (release, failures "failed to upgrade release: " e)

  -- What follows `!hasConfigChanged(…)`, which may have panicked.
  upgrade_if :
      c.Config
      → Upgrade
      → HelmComponent
      → c.Chart
      → Fields
      → Option Release
      → Outcome Bool
      → Action c.World (Option Release × List GoError)
  upgrade_if cfg upgrade component chart values first panicked = panic
  upgrade_if cfg upgrade component chart values first (done true) =
      run_upgrade cfg upgrade component chart values
  upgrade_if cfg upgrade component chart values first (done false) = pure (first, [])

  -- The release exists: an upgrade if there is no entry or the newest one differs.
  sync_history :
      c.Config
      → Upgrade
      → HelmComponent
      → c.Chart
      → Fields
      → Option Release
      → Option Release
      → Action c.World (Option Release × List GoError)
  sync_history cfg upgrade component chart values none first =
      run_upgrade cfg upgrade component chart values
  sync_history cfg upgrade component chart values (some newest) first =
      upgrade_if cfg upgrade component chart values first
        (has_config_changed newest values component.version)

  -- The switch on what the history says.
  unfoldable pub sync_release :
      c.Config
      → Install
      → Upgrade
      → HelmComponent
      → c.Chart
      → Fields
      → Result (List Release)
      → Action c.World (Option Release × List GoError)
  unfolding run_install run_upgrade upgrade_if sync_history ◌>>=◌
  sync_release cfg install upgrade component chart values (err e) =
      if is_release_not_found e
      then run_install cfg install chart values
      else pure (none, errorf "helm releases history: " e ∷ [])
  sync_release cfg install upgrade component chart values (ok history) =
      sync_history cfg upgrade component chart values (last? history) (first? history)

  -- What is reported of a release, by the state of its `Info`. A nil `Info` is dereferenced.
  pub report_state :
      c.Config → HelmComponentStatus → Release → Option String → Action c.World HelmComponentStatus
  report_state cfg status release none = panic
  report_state cfg status release (some state) = do
    infos ← call (c.build_infos cfg release.manifest)
    let known = record status { version = itoa release.version; status = state }
    if_err infos (λ e. pure known)
        (λ rs. pure (record known {
          resources = map resource_status rs;
          resources_total = length rs % 2 ^ 32;
        }))

  -- The version, the state and the resources that are reported of a release.
  pub release_status :
      c.Config → HelmComponentStatus → Option Release → Action c.World HelmComponentStatus
  release_status cfg status none = pure status
  release_status cfg status (some release) = report_state cfg status release release.status

  -- `mErrs.ErrorOrNil()`
  error_or_nil : List GoError → Option GoError
  error_or_nil [] = none
  error_or_nil (e ∷ es) = some (record { kind = plain; message = c.multi_error (e ∷ es) })

  error_message : List GoError → String
  error_message [] = ""
  error_message (e ∷ es) = c.multi_error (e ∷ es)

  -- From the loaded chart on.
  deploy_chart :
      c.Config
      → Install
      → Upgrade
      → HelmComponent
      → c.Chart
      → Fields
      → Action c.World (HelmComponentStatus × Option GoError)
  deploy_chart cfg install upgrade component chart values = do
    history ← call (c.history cfg component.name)
    (release, errors) ← sync_release cfg install upgrade component chart values history
    status ← release_status cfg (initial_status component) release
    pure (record status { message = error_message errors }, error_or_nil errors)

  reconcile_with_repo :
      HelmApp
      → HelmAppSpec
      → HelmRepo
      → HelmComponent
      → c.Config
      → Action c.World (HelmComponentStatus × Option GoError)
  reconcile_with_repo app spec repo component cfg = do
    let values = component_values spec component
    let install : Install = record {
      namespace = app.meta.namespace;
      release_name = component.name;
      version = component.version;
      repo_url = repo.url;
    }
    let upgrade : Upgrade = record {
      namespace = app.meta.namespace;
      repo_url = repo.url;
      version = component.version;
    }
    located ← call (c.locate_chart install component.chart)
    if_err located (λ e. pure (give_up component (wrap "failed to locate chart: " e)))
        (λ path. do
          loaded ← call (c.load_chart path)
          if_err loaded (λ e. pure (give_up component (wrap "failed to load chart: " e)))
              (λ chart. deploy_chart cfg install upgrade component chart values))

  -- A spec or a repository that is nil is dereferenced.
  unfoldable pub reconcile_component :
      HelmApp → HelmComponent → c.Config → Action c.World (HelmComponentStatus × Option GoError)
  unfolding report_state release_status error_or_nil error_message deploy_chart reconcile_with_repo
      ◌>>=◌
  reconcile_component app component cfg = elim app.spec [
    | none ↦ panic
    | some spec ↦ elim spec.repo [
      | none ↦ panic
      | some repo ↦ reconcile_with_repo app spec repo component cfg
    ]
  ]
