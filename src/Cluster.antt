-- ===== src/Cluster.antt =====
-- What the HelmApp reconciler calls and this repository does not implement: the Kubernetes client,
-- the Helm actions, and small helpers of their packages. A call reads and changes the world.
use pluma_opeartor.Base.{ℕ, String, Bool, Option, List}
use pluma_opeartor.Values.{Fields}
use pluma_opeartor.Effects.{GoError, Result}
use pluma_opeartor.Api.{HelmApp}

-- The fields of Helm's `Release` that the reconciler reads. A nil `Config` map is `none`. `status` is
-- that of `Info`, and `none` if `Info` is nil; `chart_version` that of `Chart.Metadata`, and `none` if
-- `Chart` or its metadata is nil.
pub record Release : Type 0 where
  pub version : ℕ
  pub status : Option String
  pub manifest : String
  pub chart_version : Option String
  pub config : Option Fields

-- The fields of Helm's `Install` action that the reconciler sets. `Version` and `RepoURL` are those
-- of its chart path options.
pub record Install : Type 0 where
  pub namespace : String
  pub release_name : String
  pub version : String
  pub repo_url : String

-- The fields of Helm's `Upgrade` action that the reconciler sets.
pub record Upgrade : Type 0 where
  pub namespace : String
  pub repo_url : String
  pub version : String

-- What the reconciler reads of a resource of a manifest.
pub record Info : Type 0 where
  pub group_version : String
  pub kind : String
  pub name : String
  pub namespace : String

pub record Cluster : Type 1 where
  pub World : Type 0
  pub Registry : Type 0
  pub Config : Type 0
  pub Chart : Type 0
  -- `DeletionTimestamp.IsZero`, and the finalizer helpers of controllerutil
  pub is_zero : Option ℕ → Bool
  pub contains_finalizer : List String → String → Bool
  pub add_finalizer : List String → String → List String
  pub remove_finalizer : List String → String → List String
  -- `client.IgnoreNotFound`, `multierror.Error.Error`, and `AsMap` of a protobuf `Struct`
  pub ignore_not_found : GoError → Option GoError
  pub multi_error : List GoError → String
  pub as_map : Option Fields → Fields
  -- `helmrelease.StatusFailed.String()` and `helmrelease.StatusDeployed.String()`
  pub status_failed : String
  pub status_deployed : String
  -- the Kubernetes client; an update hands back the object that the server stored
  pub get : String → String → World → Result HelmApp × World
  pub update : HelmApp → World → (Option GoError × HelmApp) × World
  pub update_status : HelmApp → World → (Option GoError × HelmApp) × World
  -- Helm's configuration
  pub new_registry_client : World → Result Registry × World
  pub configuration : Registry → Config
  pub init : Config → String → World → (Option GoError × Config) × World
  -- Helm's actions
  pub locate_chart : Install → String → World → Result String × World
  pub load_chart : String → World → Result Chart × World
  pub history : Config → String → World → Result (List Release) × World
  pub install :
      Config → Install → Chart → Fields → World → (Option Release × Option GoError) × World
  pub upgrade :
      Config → Upgrade → String → Chart → Fields → World → (Option Release × Option GoError) × World
  pub get_release : Config → String → World → (Option Release × Option GoError) × World
  pub uninstall : Config → String → World → Option GoError × World
  -- the resource builder over a release's manifest
  pub build_infos : Config → String → World → Result (List Info) × World
