-- ===== src/Api/Json.antt =====
-- The JSON methods of the messages: apis/operator/v1alpha1/helmapp_json.gen.go.
use pluma_opeartor.Base.{Bool, true, false, Option, none, []}
use pluma_opeartor.Effects.{GoError}
use pluma_opeartor.Api.{
  HelmAppSpec, HelmComponent, HelmRepo, HelmAppStatus, HelmComponentStatus, HelmResourceStatus,
  unknown,
}

pub data MessageKind : Type 0 where
  app_spec component repo app_status component_status resource_status : MessageKind

abbrev pub Body : MessageKind → Type 0
Body app_spec = HelmAppSpec
Body component = HelmComponent
Body repo = HelmRepo
Body app_status = HelmAppStatus
Body component_status = HelmComponentStatus
Body resource_status = HelmResourceStatus

-- What Go's `new` gives.
abbrev pub zero_body : (k : MessageKind) → Body k
zero_body app_spec = record { components = []; global_values = none; repo = none }
zero_body component = record {
  name = "";
  chart = "";
  version = "";
  component_values = none;
  repo = none;
  ignore_global_values = false;
}
zero_body repo = record { name = ""; url = "" }
zero_body app_status = record { phase = unknown; components = [] }
zero_body component_status = record {
  name = "";
  status = "";
  message = "";
  version = "";
  resources = [];
  resources_total = 0;
}
zero_body resource_status = record { api_version = ""; kind = ""; name = ""; namespace = "" }

-- `jsonpb.Unmarshaler`, with its field
pub record Unmarshaler : Type 0 where
  pub allow_unknown_fields : Bool

-- What the methods take from jsonpb, whose Marshaler has no option set: a `Text` is a string, and
-- `bytes_of` is the conversion to a slice of bytes. `unmarshal` writes to the message that it is given.
pub record JsonPb : Type 1 where
  pub Text : Type 0
  pub Bytes : Type 0
  pub bytes_of : Text → Bytes
  pub marshal_to_string : (k : MessageKind) → Body k → Text × Option GoError
  pub unmarshal : Unmarshaler → Bytes → (k : MessageKind) → Body k → Option GoError × Body k

-- `HelmappUnmarshaler`
abbrev pub helmapp_unmarshaler : Unmarshaler
helmapp_unmarshaler = record { allow_unknown_fields = true }

module _ (j : JsonPb) where
  -- `MarshalJSON` of each message, and `UnmarshalJSON` with the message it leaves.
  unfoldable pub spec_marshal_json : HelmAppSpec → j.Bytes × Option GoError
  spec_marshal_json m = let (str, e) = j.marshal_to_string app_spec m in (j.bytes_of str, e)

  unfoldable pub spec_unmarshal_json : j.Bytes → HelmAppSpec → Option GoError × HelmAppSpec
  spec_unmarshal_json b m = j.unmarshal helmapp_unmarshaler b app_spec m

  unfoldable pub component_marshal_json : HelmComponent → j.Bytes × Option GoError
  component_marshal_json m = let (str, e) = j.marshal_to_string component m in (j.bytes_of str, e)

  unfoldable pub component_unmarshal_json : j.Bytes → HelmComponent → Option GoError × HelmComponent
  component_unmarshal_json b m = j.unmarshal helmapp_unmarshaler b component m

  unfoldable pub repo_marshal_json : HelmRepo → j.Bytes × Option GoError
  repo_marshal_json m = let (str, e) = j.marshal_to_string repo m in (j.bytes_of str, e)

  unfoldable pub repo_unmarshal_json : j.Bytes → HelmRepo → Option GoError × HelmRepo
  repo_unmarshal_json b m = j.unmarshal helmapp_unmarshaler b repo m

  unfoldable pub status_marshal_json : HelmAppStatus → j.Bytes × Option GoError
  status_marshal_json m = let (str, e) = j.marshal_to_string app_status m in (j.bytes_of str, e)

  unfoldable pub status_unmarshal_json : j.Bytes → HelmAppStatus → Option GoError × HelmAppStatus
  status_unmarshal_json b m = j.unmarshal helmapp_unmarshaler b app_status m

  unfoldable pub component_status_marshal_json : HelmComponentStatus → j.Bytes × Option GoError
  component_status_marshal_json m =
      let (str, e) = j.marshal_to_string component_status m in (j.bytes_of str, e)

  unfoldable pub component_status_unmarshal_json :
      j.Bytes → HelmComponentStatus → Option GoError × HelmComponentStatus
  component_status_unmarshal_json b m = j.unmarshal helmapp_unmarshaler b component_status m

  unfoldable pub resource_marshal_json : HelmResourceStatus → j.Bytes × Option GoError
  resource_marshal_json m =
      let (str, e) = j.marshal_to_string resource_status m in (j.bytes_of str, e)

  unfoldable pub resource_unmarshal_json :
      j.Bytes → HelmResourceStatus → Option GoError × HelmResourceStatus
  resource_unmarshal_json b m = j.unmarshal helmapp_unmarshaler b resource_status m
