-- ===== src/Controller/Spared.antt =====
-- What outlives all calls of Kubernetes and Helm but the uninstall of one release.
use pluma_opeartor.Base.{String, ◌≡◌, ◌≢◌, Option, none, some, List, All}
use pluma_opeartor.Effects.{GoError, ok, Keeps, keeps_rules}
use pluma_opeartor.Api.{HelmApp, HelmAppStatus, ObjectMeta, HelmComponentStatus}
use pluma_opeartor.Cluster.{Cluster, Release}
use pluma_opeartor.Controller.Uninstall.{
  new_action_configuration, uninstall_found, uninstall_component,
}
use pluma_opeartor.Controller.Component.Untouched.{ComponentLaws}

-- A property of the world that every call keeps, but for the uninstall of one name: that the release
-- of this name is installed is an example.
pub record SparesLaws (c : Cluster) (name : String) (P : c.World → Type 0) : Type 1 where
  pub component : ComponentLaws c P
  pub get-P : (ns n : String) (w : c.World) → P w → P (c.get ns n w).1
  pub update-P : (app : HelmApp) (w : c.World) → P w → P (c.update app w).1
  pub update_status-P : (app : HelmApp) (w : c.World) → P w → P (c.update_status app w).1
  pub registry-P : (w : c.World) → P w → P (c.new_registry_client w).1
  pub init-P : (cfg : c.Config) (ns : String) (w : c.World) → P w → P (c.init cfg ns w).1
  pub get_release-P :
      (cfg : c.Config) (n : String) (w : c.World) → P w → P (c.get_release cfg n w).1
  pub uninstall-P :
      (cfg : c.Config) (n : String) → n ≢ name → (w : c.World) → P w → P (c.uninstall cfg n w).1
  -- The status is a subresource, so an update does not write it. If an update of the metadata succeeds
  -- for a HelmApp that was just read, it hands back the spec and the status of what was read, since
  -- the server refuses an update of any other version.
  pub update-spec :
      (ns n : String) (app : HelmApp) (meta : ObjectMeta) (w : c.World)
      → (c.get ns n w).0 ≡ ok app
      → (c.update (record app { meta = meta }) (c.get ns n w).1).0.0 ≡ none
      → (c.update (record app { meta = meta }) (c.get ns n w).1).0.1.spec ≡ app.spec
  pub update-status :
      (ns n : String) (app : HelmApp) (meta : ObjectMeta) (w : c.World)
      → (c.get ns n w).0 ≡ ok app
      → (c.update (record app { meta = meta }) (c.get ns n w).1).0.0 ≡ none
      → (c.update (record app { meta = meta }) (c.get ns n w).1).0.1.status ≡ app.status

-- No status bears the name.
abbrev pub IsUnreported : String → List HelmComponentStatus → Type 0
IsUnreported name statuses = All (λ s. s.name ≢ name) statuses

abbrev pub HasNoReport : String → Option HelmAppStatus → Type 0
HasNoReport name none = Unit
HasNoReport name (some status) = IsUnreported name status.components

module _ (c : Cluster) (name : String) {P : c.World → Type 0} (L : SparesLaws c name P) where
  open L use {registry-P, get_release-P, uninstall-P}

  uninstall_found-Keeps :
      (cfg : c.Config) (n : String) (e : Option GoError) (release : Option Release)
      → n ≢ name
      → Keeps P (uninstall_found c cfg n e release)
  unfolding uninstall_found
  uninstall_found-Keeps cfg n (some e) release h = search keeps_rules
  uninstall_found-Keeps cfg n none none h = search keeps_rules
  uninstall_found-Keeps cfg n none (some release) h = search (keeps_rules, uninstall-P cfg n h)

  pub uninstall_component-Keeps :
      (cfg : c.Config) (n : String) → n ≢ name → Keeps P (uninstall_component c cfg n)
  unfolding uninstall_component
  uninstall_component-Keeps cfg n h = search (keeps_rules, get_release-P, uninstall_found-Keeps)

  pub new_action_configuration-Keeps : Keeps P (new_action_configuration c)
  unfolding new_action_configuration
  new_action_configuration-Keeps = search (keeps_rules, registry-P)
