-- ===== src/Api/Reset.antt =====
-- A message after `Reset` looks like a nil message, to every getter.
use pluma_opeartor.Base.{◌≡◌, refl, Option, none, some}
use pluma_opeartor.Api.{
  HelmRepo, HelmComponent, HelmAppSpec, HelmResourceStatus, HelmComponentStatus, HelmAppStatus,
}
use pluma_opeartor.Api.Getters

-- No getter tells the two apart.
abbrev pub SameHelmAppSpec : Option HelmAppSpec → Option HelmAppSpec → Type 0
SameHelmAppSpec a b =
    (Getters.get_spec_components a ≡ Getters.get_spec_components b)
    × (Getters.get_spec_global_values a ≡ Getters.get_spec_global_values b)
    × (Getters.get_spec_repo a ≡ Getters.get_spec_repo b)

-- No getter tells the two apart.
abbrev pub SameHelmComponent : Option HelmComponent → Option HelmComponent → Type 0
SameHelmComponent a b =
    (Getters.get_component_name a ≡ Getters.get_component_name b)
    × (Getters.get_component_chart a ≡ Getters.get_component_chart b)
    × (Getters.get_component_version a ≡ Getters.get_component_version b)
    × (Getters.get_component_component_values a ≡ Getters.get_component_component_values b)
    × (Getters.get_component_repo a ≡ Getters.get_component_repo b)
    × (Getters.get_component_ignore_global_values a ≡ Getters.get_component_ignore_global_values b)

-- No getter tells the two apart.
abbrev pub SameHelmRepo : Option HelmRepo → Option HelmRepo → Type 0
SameHelmRepo a b =
    (Getters.get_repo_name a ≡ Getters.get_repo_name b)
    × (Getters.get_repo_url a ≡ Getters.get_repo_url b)

-- No getter tells the two apart.
abbrev pub SameHelmAppStatus : Option HelmAppStatus → Option HelmAppStatus → Type 0
SameHelmAppStatus a b =
    (Getters.get_app_status_phase a ≡ Getters.get_app_status_phase b)
    × (Getters.get_app_status_components a ≡ Getters.get_app_status_components b)

-- No getter tells the two apart.
abbrev pub SameHelmComponentStatus :
    Option HelmComponentStatus → Option HelmComponentStatus → Type 0
SameHelmComponentStatus a b =
    (Getters.get_component_status_name a ≡ Getters.get_component_status_name b)
    × (Getters.get_component_status_status a ≡ Getters.get_component_status_status b)
    × (Getters.get_component_status_message a ≡ Getters.get_component_status_message b)
    × (Getters.get_component_status_version a ≡ Getters.get_component_status_version b)
    × (Getters.get_component_status_resources a ≡ Getters.get_component_status_resources b)
    × (Getters.get_component_status_resources_total a
        ≡ Getters.get_component_status_resources_total b)

-- No getter tells the two apart.
abbrev pub SameHelmResourceStatus : Option HelmResourceStatus → Option HelmResourceStatus → Type 0
SameHelmResourceStatus a b =
    (Getters.get_resource_api_version a ≡ Getters.get_resource_api_version b)
    × (Getters.get_resource_kind a ≡ Getters.get_resource_kind b)
    × (Getters.get_resource_name a ≡ Getters.get_resource_name b)
    × (Getters.get_resource_namespace a ≡ Getters.get_resource_namespace b)

-- After a `Reset`, each of the six messages of the API gives to all of its getters what a nil
-- message gives, whatever it held before.
pub reset-getters :
    (spec : HelmAppSpec) (component : HelmComponent) (repo : HelmRepo) (app : HelmAppStatus)
    (status : HelmComponentStatus) (resource : HelmResourceStatus)
    → SameHelmAppSpec (some (Getters.reset_spec spec)) none
      × SameHelmComponent (some (Getters.reset_component component)) none
      × SameHelmRepo (some (Getters.reset_repo repo)) none
      × SameHelmAppStatus (some (Getters.reset_app_status app)) none
      × SameHelmComponentStatus (some (Getters.reset_component_status status)) none
      × SameHelmResourceStatus (some (Getters.reset_resource resource)) none
unfolding Getters.get_spec_components Getters.get_spec_global_values Getters.get_spec_repo
    Getters.reset_spec Getters.get_component_name Getters.get_component_chart
    Getters.get_component_version Getters.get_component_component_values Getters.get_component_repo
    Getters.get_component_ignore_global_values Getters.reset_component Getters.get_repo_name
    Getters.get_repo_url Getters.reset_repo Getters.get_app_status_phase
    Getters.get_app_status_components Getters.reset_app_status Getters.get_component_status_name
    Getters.get_component_status_status Getters.get_component_status_message
    Getters.get_component_status_version Getters.get_component_status_resources
    Getters.get_component_status_resources_total Getters.reset_component_status
    Getters.get_resource_api_version Getters.get_resource_kind Getters.get_resource_name
    Getters.get_resource_namespace Getters.reset_resource
reset-getters spec component repo app status resource = (
  (refl, refl, refl),
  (refl, refl, refl, refl, refl, refl),
  (refl, refl),
  (refl, refl),
  (refl, refl, refl, refl, refl, refl),
  (refl, refl, refl, refl),
)
