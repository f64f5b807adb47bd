-- ===== src/Api/Getters.antt =====
-- The getters of apis/operator/v1alpha1/helmapp.pb.go: on a nil message they give the zero value.
use pluma_opeartor.Base.{ℕ, String, Bool, false, Option, none, some, List, []}
use pluma_opeartor.Values.{Fields}
use pluma_opeartor.Api.{
  Phase, unknown, HelmRepo, HelmComponent, HelmAppSpec, HelmResourceStatus, HelmComponentStatus,
  HelmAppStatus,
}

-- HelmAppSpec
unfoldable pub get_spec_components : Option HelmAppSpec → List HelmComponent
get_spec_components none = []
get_spec_components (some m) = m.components

unfoldable pub get_spec_global_values : Option HelmAppSpec → Option Fields
get_spec_global_values none = none
get_spec_global_values (some m) = m.global_values

unfoldable pub get_spec_repo : Option HelmAppSpec → Option HelmRepo
get_spec_repo none = none
get_spec_repo (some m) = m.repo

-- `Reset`: the message with every field at its zero value
unfoldable pub reset_spec : HelmAppSpec → HelmAppSpec
reset_spec m = record { components = []; global_values = none; repo = none }

-- HelmComponent
unfoldable pub get_component_name : Option HelmComponent → String
get_component_name none = ""
get_component_name (some m) = m.name

unfoldable pub get_component_chart : Option HelmComponent → String
get_component_chart none = ""
get_component_chart (some m) = m.chart

unfoldable pub get_component_version : Option HelmComponent → String
get_component_version none = ""
get_component_version (some m) = m.version

unfoldable pub get_component_component_values : Option HelmComponent → Option Fields
get_component_component_values none = none
get_component_component_values (some m) = m.component_values

unfoldable pub get_component_repo : Option HelmComponent → Option HelmRepo
get_component_repo none = none
get_component_repo (some m) = m.repo

unfoldable pub get_component_ignore_global_values : Option HelmComponent → Bool
get_component_ignore_global_values none = false
get_component_ignore_global_values (some m) = m.ignore_global_values

-- `Reset`: the message with every field at its zero value
unfoldable pub reset_component : HelmComponent → HelmComponent
reset_component m = record {
  name = "";
  chart = "";
  version = "";
  component_values = none;
  repo = none;
  ignore_global_values = false;
}

-- HelmRepo
unfoldable pub get_repo_name : Option HelmRepo → String
get_repo_name none = ""
get_repo_name (some m) = m.name

unfoldable pub get_repo_url : Option HelmRepo → String
get_repo_url none = ""
get_repo_url (some m) = m.url

-- `Reset`: the message with every field at its zero value
unfoldable pub reset_repo : HelmRepo → HelmRepo
reset_repo m = record { name = ""; url = "" }

-- HelmAppStatus
unfoldable pub get_app_status_phase : Option HelmAppStatus → Phase
get_app_status_phase none = unknown
get_app_status_phase (some m) = m.phase

unfoldable pub get_app_status_components : Option HelmAppStatus → List HelmComponentStatus
get_app_status_components none = []
get_app_status_components (some m) = m.components

-- `Reset`: the message with every field at its zero value
unfoldable pub reset_app_status : HelmAppStatus → HelmAppStatus
reset_app_status m = record { phase = unknown; components = [] }

-- HelmComponentStatus
unfoldable pub get_component_status_name : Option HelmComponentStatus → String
get_component_status_name none = ""
get_component_status_name (some m) = m.name

unfoldable pub get_component_status_status : Option HelmComponentStatus → String
get_component_status_status none = ""
get_component_status_status (some m) = m.status

unfoldable pub get_component_status_message : Option HelmComponentStatus → String
get_component_status_message none = ""
get_component_status_message (some m) = m.message

unfoldable pub get_component_status_version : Option HelmComponentStatus → String
get_component_status_version none = ""
get_component_status_version (some m) = m.version

unfoldable pub get_component_status_resources : Option HelmComponentStatus → List HelmResourceStatus
get_component_status_resources none = []
get_component_status_resources (some m) = m.resources

unfoldable pub get_component_status_resources_total : Option HelmComponentStatus → ℕ
get_component_status_resources_total none = 0
get_component_status_resources_total (some m) = m.resources_total

-- `Reset`: the message with every field at its zero value
unfoldable pub reset_component_status : HelmComponentStatus → HelmComponentStatus
reset_component_status m = record {
  name = "";
  status = "";
  message = "";
  version = "";
  resources = [];
  resources_total = 0;
}

-- HelmResourceStatus
unfoldable pub get_resource_api_version : Option HelmResourceStatus → String
get_resource_api_version none = ""
get_resource_api_version (some m) = m.api_version

unfoldable pub get_resource_kind : Option HelmResourceStatus → String
get_resource_kind none = ""
get_resource_kind (some m) = m.kind

unfoldable pub get_resource_name : Option HelmResourceStatus → String
get_resource_name none = ""
get_resource_name (some m) = m.name

unfoldable pub get_resource_namespace : Option HelmResourceStatus → String
get_resource_namespace none = ""
get_resource_namespace (some m) = m.namespace

-- `Reset`: the message with every field at its zero value
unfoldable pub reset_resource : HelmResourceStatus → HelmResourceStatus
reset_resource m = record { api_version = ""; kind = ""; name = ""; namespace = "" }
