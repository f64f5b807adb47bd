-- ===== src/Istio/Convert.antt =====
-- `convertIopToHelmApp`, `mergeIOPWithProfile` and `structToMap`.
pub mod Names
pub mod Pilot
pub mod Mesh
pub mod Accepted
use pluma_opeartor.Base.{
  ℕ, String, ◌<>◌, Bool, true, false, ◌==◌, Option, none, some, List, [], ◌∷◌, ◌++◌, if◌then◌else◌,
}
use pluma_opeartor.Constants.{managed_label, managed_label_value}
use pluma_opeartor.Values.{
  Any, object, nil_object, pointer, bool, number, Fields, end, field, lookup, insert,
}
use pluma_opeartor.Values.Merge.{copy_into}
use pluma_opeartor.Effects.{GoError, plain, Result, ok, err, wrap}
use pluma_opeartor.Api.{HelmApp, HelmComponent, HelmRepo, ObjectMeta}
use pluma_opeartor.Istio.Step.{Step, value, failure, crash, ◌>>=◌, from_result}
use pluma_opeartor.Istio.Resource.{
  K8s, ComponentSpec, GatewaySpec, Components, IopSpec, IstioOperator, get_value, is_enabled,
  get_k8s, get_field, Library,
}

abbrev pub plain_error : String → GoError
plain_error message = record { kind = plain; message = message }

-- A map[string]any, nil or not, as an `any`.
abbrev pub box : Option Fields → Any
box none = nil_object
box (some m) = object m

-- The conversion's `buildName`
abbrev pub build_name : IstioOperator → String → String
build_name iop part = "iop-" <> iop.meta.name <> "-" <> part

-- A component as the templates have it.
abbrev pub template : String → String → String → HelmComponent
template name chart version = record {
  name = name;
  chart = chart;
  version = version;
  component_values = none;
  repo = none;
  ignore_global_values = false;
}

-- `&v1alpha1.HelmComponent{}`
abbrev pub empty_component : HelmComponent
empty_component = template "" "" ""

-- `m[k] = f(x)` where there is an `x`
abbrev pub put_some {ℓ} : {A : Type ℓ} → String → (A → Any) → Option A → Fields → Fields
put_some k f none m = m
put_some k f (some x) m = insert k (f x) m

-- The accessors of a spec that may be nil.
abbrev pub spec_values : IstioOperator → Option Fields
spec_values iop = elim iop.spec [ none ↦ none | some spec ↦ spec.values ]

abbrev pub spec_mesh_config : IstioOperator → Option Fields
spec_mesh_config iop = elim iop.spec [ none ↦ none | some spec ↦ spec.mesh_config ]

abbrev pub spec_components : IstioOperator → Option Components
spec_components iop = elim iop.spec [ none ↦ none | some spec ↦ spec.components ]

-- `values.meshConfig` on top of what `componentValues["meshConfig"]` holds. Writing to a nil map
-- panics; a loop over an empty map writes nothing.
unfoldable pub overlay_mesh_config : Fields → Option Any → Fields → Step Fields
overlay_mesh_config mc none values = value (insert "meshConfig" (object mc) values)
overlay_mesh_config mc (some (object old)) values =
    value (insert "meshConfig" (object (copy_into mc old)) values)
overlay_mesh_config end (some nil_object) values = value values
overlay_mesh_config (field k v mc) (some nil_object) values = crash
overlay_mesh_config mc (some other) values = value values

module _ (lib : Library) where
  -- An error of either step leaves a nil map.
  unfoldable pub struct_to_map : Any → Option Fields
  struct_to_map x = elim (lib.marshal x) [
    | err e ↦ none
    | ok text ↦ elim (lib.unmarshal text) [ err e ↦ none | ok m ↦ m ]
  ]

  -- `GetStructValue().AsMap()`, as an `any`
  abbrev pub struct_any : Any → Any
  struct_any x = object (lib.as_map (lib.get_struct_value x))

  unfoldable pub merge_iop_with_profile : String → IstioOperator → Result IstioOperator
  merge_iop_with_profile profiles_dir iop = elim iop.spec [
    | none ↦ err (plain_error "input IstioOperator is nil or has nil Spec")
    | some spec ↦
        let name = if spec.profile == "" then "default" else spec.profile in
        let path = profiles_dir <> "/" <> name <> ".yaml" in
        elim (lib.read_file path) [
          | err e ↦ err (wrap ("failed to read profile file " <> path <> ": ") e)
          | ok text ↦ elim (lib.unmarshal_iop text) [
            | err e ↦ err (wrap "failed to unmarshal profile data: " e)
            | ok profile ↦ elim (lib.merge iop profile) [
              | err e ↦ err (wrap "failed to merge IOPs: " e)
              | ok merged ↦ ok merged
            ]
          ]
        ]
  ]

  -- `values.meshConfig`, where there is one
  unfoldable pub mesh_overlay : Option Any → Fields → Step Fields
  mesh_overlay none values = value values
  mesh_overlay (some mc) values =
      overlay_mesh_config (lib.as_map (lib.get_struct_value mc)) (lookup "meshConfig" values) values

  -- `spec.meshConfig`, and `values.meshConfig` on top of it
  unfoldable pub mesh_values : IstioOperator → Step Fields
  mesh_values iop = mesh_overlay (get_field (spec_values iop) "meshConfig") (
      put_some "meshConfig" (λ (mc : Fields). box (struct_to_map (object mc)))
        (spec_mesh_config iop) end)

  -- `pilot["resources"] = …`
  unfoldable pub put_resources : ℕ → Option Any → Fields → Step Fields
  put_resources address none values =
      value (insert "pilot" (object (field "resources" (pointer address) end)) values)
  put_resources address (some (object pilot)) values = value (
      insert "pilot" (object (insert "resources" (box (struct_to_map (pointer address))) pilot))
        values)
  put_resources address (some nil_object) values = crash
  put_resources address (some other) values =
      failure (plain_error "componentValues['pilot'] is not a map[string]any")

  -- The settings of the pilot's `k8s` section.
  unfoldable pub k8s_values : Option K8s → Fields → Step Fields
  k8s_values none values = value values
  k8s_values (some k8s) values =
      let values' =
        put_some "affinity" (λ (a : ℕ). box (struct_to_map (pointer a))) k8s.affinity values in
      elim k8s.resources [
        | none ↦ value values'
        | some address ↦ put_resources address (lookup "pilot" values') values'
      ]

  -- The values of istiod.
  unfoldable pub istiod_values : IstioOperator → Option ComponentSpec → Step Fields
  istiod_values iop pilot = do
    values ← mesh_values iop
    let with_webhook =
        put_some "sidecarInjectorWebhook" struct_any
          (get_field (spec_values iop) "sidecarInjectorWebhook") values
    let with_pilot = put_some "pilot" struct_any (get_field (spec_values iop) "pilot") with_webhook
    all ← k8s_values (get_k8s pilot) with_pilot
    from_result (wrap "failed to convert component values to struct: ") (lib.new_struct all)

  -- `values.gateways["istio-ingressgateway"]`, whatever gateway is built.
  unfoldable pub ingress_settings : IstioOperator → Option Fields
  ingress_settings iop = elim (get_field (spec_values iop) "gateways") [
    | none ↦ none
    | some gateways ↦ elim (get_field (lib.get_struct_value gateways) "istio-ingressgateway") [
      | none ↦ none
      | some gateway ↦ lib.get_struct_value gateway
    ]
  ]

  unfoldable pub autoscaling_values : Option Fields → Fields → Fields
  autoscaling_values settings values = elim (get_field settings "autoscaleEnabled") [
    | none ↦ values
    | some enabled ↦
        let autoscaling = field "enabled" (bool (lib.get_bool_value enabled)) end in
        let with_min =
          put_some "minReplicas" (λ (m : Any). number (lib.get_number_value m))
            (get_field settings "autoscaleMin") autoscaling in
        insert "autoscaling" (object with_min) values
  ]

  unfoldable pub gateway_k8s_values : Option K8s → Fields
  gateway_k8s_values none = end
  gateway_k8s_values (some k8s) =
      put_some "resources" (λ (a : ℕ). box (struct_to_map (pointer a))) k8s.resources
        (put_some "affinity" (λ (a : ℕ). box (struct_to_map (pointer a))) k8s.affinity end)

  -- `buildGw`: what it appends to the components.
  unfoldable pub build_gateway : IstioOperator → String → GatewaySpec → Step (List HelmComponent)
  build_gateway iop version gw =
      if get_value gw.enabled
      then (if gw.name == "" then value [] else (do
        let values = autoscaling_values (ingress_settings iop) (gateway_k8s_values gw.k8s)
        built ←
            from_result (wrap "failed to convert component values to struct: ")
              (lib.new_struct values)
        value (
            record (template (build_name iop gw.name) "gateway" version) {
              component_values = some built;
            }
            ∷ [])))
      else value []

  unfoldable pub build_gateways :
      IstioOperator → String → List GatewaySpec → Step (List HelmComponent)
  build_gateways iop version [] = value []
  build_gateways iop version (gw ∷ gateways) = do
    first ← build_gateway iop version gw
    rest ← build_gateways iop version gateways
    value (first ++ rest)

  -- The component of istiod, if the pilot is enabled.
  unfoldable pub build_istiod :
      String → String → IstioOperator → Option ComponentSpec → Step (List HelmComponent)
  build_istiod name version iop pilot =
      if is_enabled pilot
      then (do
        built ← istiod_values iop pilot
        value (record (template name "istiod" version) { component_values = some built } ∷ []))
      else value []

  -- "parse components": `input` is the operator before the profile was merged in.
  unfoldable pub build_components :
      IstioOperator → String → IstioOperator → Option Components → Step (List HelmComponent)
  build_components input version iop none = value []
  build_components input version iop (some cs) = do
    let base =
        if is_enabled cs.base then template (build_name input "base") "base" version ∷ [] else []
    istiod ← build_istiod (build_name input "istiod") version iop cs.pilot
    ingress ← build_gateways iop version cs.ingress_gateways
    egress ← build_gateways iop version cs.egress_gateways
    let cni = if is_enabled cs.cni then empty_component ∷ [] else []
    let ztunnel = if is_enabled cs.ztunnel then empty_component ∷ [] else []
    value (base ++ (istiod ++ (ingress ++ (egress ++ (cni ++ ztunnel)))))

  -- `iop.Spec.GetValues().GetFields()["global"]`
  unfoldable pub global_values : IstioOperator → Option Fields
  global_values iop = elim (get_field (spec_values iop) "global") [
    | none ↦ none
    | some global ↦ lib.get_struct_value global
  ]

  -- The version of the charts: the tag of the input, or a default.
  unfoldable pub chart_version : Option Any → String
  chart_version tag =
      let given = lib.get_string_value tag in if given == "" then "1.21.1" else given

  -- The HelmApp around the components.
  unfoldable pub helm_app_of : IstioOperator → List HelmComponent → HelmApp
  helm_app_of iop components = record {
    meta = record {
      name = iop.meta.name;
      namespace = iop.meta.namespace;
      labels = some ((managed_label, managed_label_value) ∷ []);
      finalizers = [];
      deletion_timestamp = none;
    };
    spec = some (record {
      components = components;
      global_values = global_values iop;
      repo =
          some (record {
            name = "istio";
            url = "https://istio-release.storage.googleapis.com/charts";
          });
    });
    status = none;
  }

  -- The conversion, by the spec of its input.
  unfoldable pub convert_spec : String → IstioOperator → Option IopSpec → Step HelmApp
  convert_spec profiles_dir input none = failure (plain_error "iop must required")
  convert_spec profiles_dir input (some spec) = do
    iop ← from_result (λ e. e) (merge_iop_with_profile profiles_dir input)
    components ← build_components input (chart_version spec.tag) iop (spec_components iop)
    value (helm_app_of iop components)

  unfoldable pub convert_iop_to_helm_app : String → IstioOperator → Step HelmApp
  unfolding convert_spec
  convert_iop_to_helm_app profiles_dir input = convert_spec profiles_dir input input.spec
