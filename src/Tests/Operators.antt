-- ===== src/Tests/Operators.antt =====
-- The IstioOperator controller with a small library.
use pluma_opeartor.Base.{
  ℕ, String, ◌≡◌, ◌≢◌, ◌⊎◌, refl, Bool, true, false, ◌==◌, ◌||◌, Option, none, some, List, [], ◌∷◌,
  arith, Option-cases, Bool-cases, inl, inr, if◌then◌else◌,
}
use pluma_opeartor.Values.{Any, text, object, pointer, Fields, end, field, lookup}
use pluma_opeartor.Values.Paths.{at, entry}
use pluma_opeartor.Effects.{GoError, plain, Result, ok, err}
use pluma_opeartor.Api.{HelmComponent}
use pluma_opeartor.Istio.Step.{value}
use pluma_opeartor.Istio.Convert.Mesh.{or_else, mesh_values-precedence}
use pluma_opeartor.Istio.Convert.{struct_to_map}
use pluma_opeartor.Istio.Resource.{K8s, ComponentSpec, Components, IopSpec, IstioOperator, Library}
use pluma_opeartor.Istio.Convert.{
  merge_iop_with_profile, convert_iop_to_helm_app, helm_app_of, template, build_components,
  build_istiod, build_gateways, build_gateway, chart_version, istiod_values, mesh_values,
  mesh_overlay, k8s_values, gateway_k8s_values, autoscaling_values, ingress_settings,
}
use pluma_opeartor.Istio.Convert.Names.{expected_names, convert-names, spec_names}
use pluma_opeartor.Istio.Convert.Pilot.{HasPointer, pilot_resources_rejected}

-- `NewStruct` refuses pointers.
unfoldable mutual
  pub points : Any → Bool
  points (pointer address) = true
  points (object m) = any_points m
  points _ = false

  pub any_points : Fields → Bool
  any_points end = false
  any_points (field k v m) = points v || any_points m

abbrev pub bad_value : GoError
bad_value = record { kind = plain; message = "proto: invalid type" }

abbrev pub new_struct : Fields → Result Fields
new_struct m = if any_points m then err bad_value else ok m

or_true : (a b : Bool) → (a ≡ true) ⊎ (b ≡ true) → (a || b) ≡ true
or_true a b h = ground arith

some-points : (w v : Any) → some w ≡ some v → points v ≡ true → points w ≡ true
some-points w v e h = cc

lookup-points :
    (k : String) (m : Fields) (v : Any)
    → lookup k m ≡ some v
    → points v ≡ true
    → any_points m ≡ true
unfolding points any_points lookup
lookup-points k end v e h = cc
lookup-points k (field j w m) v e h = elim (Bool-cases (j == k)) [
  | inl s ↦
      let same : some w ≡ some v = rw s at e in
      or_true (points w) (any_points m) (inl (some-points w v same h))
  | inr s ↦
      let below : lookup k m ≡ some v = rw s at e in
      or_true (points w) (any_points m) (inr (lookup-points k m v below h))
]

entry-points : (k : String) (v w : Any) → entry k v ≡ some w → points w ≡ true → points v ≡ true
unfolding points
entry-points k (object m) w e h = lookup-points k m w e h
entry-points k v w e h = unfold lookup in cc

at-points : (p : List String) (v : Any) (a : ℕ) → at p v ≡ some (pointer a) → points v ≡ true
unfolding at points
at-points [] v a e = let same : v ≡ pointer a = ground arith in rw same refl
at-points (k ∷ p) v a e = elim (Option-cases (entry k v)) [
  | inl f ↦ absurd (ground arith)
  | inr (w, f) ↦ entry-points k v w f (at-points p w a (ground arith))
]

refuses : (m : Fields) → HasPointer m → (e : GoError) × (new_struct m ≡ err e)
refuses m (p, a, e) =
    let h : any_points m ≡ true = unfold points in at-points p (object m) a e in
    (bad_value, rw h refl)

abbrev pub library : Library
library = record {
  get_string_value = elim [ none ↦ "" | some v ↦ elim v [ text s ↦ s | _ ↦ "" ] ];
  get_struct_value = elim [ object m ↦ some m | _ ↦ none ];
  get_bool_value = λ v. false;
  get_number_value = λ v. 0;
  as_map = elim [ none ↦ end | some m ↦ m ];
  new_struct = new_struct;
  marshal = λ v. ok "{}";
  unmarshal = λ s. ok (some end);
  read_file = λ path. ok "";
  unmarshal_iop = λ s. ok (record {
    meta = record {
      name = "";
      namespace = "";
      labels = none;
      finalizers = [];
      deletion_timestamp = none;
    };
    spec = none;
  });
  merge = λ dst src. ok dst;
}

abbrev pub pilot_with : Option K8s → ComponentSpec
pilot_with k8s = record { enabled = some true; k8s = k8s }

abbrev pub components_with : Option K8s → Components
components_with k8s = record {
  base = some (record { enabled = some true; k8s = none });
  pilot = some (pilot_with k8s);
  cni = none;
  ztunnel = none;
  ingress_gateways = record { enabled = some true; name = "ingress"; k8s = none } ∷ [];
  egress_gateways = record { enabled = some false; name = "egress"; k8s = none } ∷ [];
}

abbrev pub spec_with : Option K8s → IopSpec
spec_with k8s = record {
  profile = "";
  tag = none;
  mesh_config = none;
  values = none;
  components = some (components_with k8s);
}

abbrev pub operator_with : Option K8s → IstioOperator
operator_with k8s = record {
  meta = record {
    name = "mesh";
    namespace = "istio-system";
    labels = none;
    finalizers = [];
    deletion_timestamp = none;
  };
  spec = some (spec_with k8s);
}

abbrev resources : Option K8s
resources = some (record { affinity = none; resources = some 1 })

pub profile_test :
    (k8s : Option K8s)
    → merge_iop_with_profile library "profiles" (operator_with k8s) ≡ ok (operator_with k8s)
unfolding merge_iop_with_profile
profile_test k8s = refl

pilot_resources_rejected_example :
    convert_iop_to_helm_app library "profiles" (operator_with resources)
    ≢ value (helm_app_of library (operator_with resources) [])
pilot_resources_rejected_example =
    pilot_resources_rejected library refuses "profiles" (operator_with resources)
      (operator_with resources) (spec_with resources) (components_with resources) none 1
      (helm_app_of library (operator_with resources) []) refl (profile_test resources) refl refl
      refl

abbrev with_values : HelmComponent → HelmComponent
with_values component = record component { component_values = some end }

abbrev pub three_components : List HelmComponent
three_components =
    template "iop-mesh-base" "base" "1.21.1"
    ∷ with_values (template "iop-mesh-istiod" "istiod" "1.21.1")
    ∷ with_values (template "iop-mesh-ingress" "gateway" "1.21.1")
    ∷ []

pub convert_test :
    convert_iop_to_helm_app library "profiles" (operator_with none)
    ≡ value (helm_app_of library (operator_with none) three_components)
unfolding convert_iop_to_helm_app merge_iop_with_profile build_components build_istiod istiod_values
    mesh_values mesh_overlay k8s_values build_gateways build_gateway gateway_k8s_values
    autoscaling_values ingress_settings chart_version any_points
convert_test = refl

convert-names_example :
    (spec_names (helm_app_of library (operator_with none) three_components)
      ≡ expected_names (operator_with none) (operator_with none) (some (components_with none)))
    × ((helm_app_of library (operator_with none) three_components).meta.name ≡ "mesh")
    × ((helm_app_of library (operator_with none) three_components).meta.namespace ≡ "istio-system")
convert-names_example =
    convert-names library "profiles" (operator_with none) (operator_with none) (spec_with none)
      (helm_app_of library (operator_with none) three_components) refl (profile_test none)
      convert_test

abbrev pub mesh : Fields
mesh = field "meshConfig" (object (field "trustDomain" (text "cluster.local") end)) end

abbrev pub mesh_operator : IstioOperator
mesh_operator = record (operator_with none) {
  spec = some (record (spec_with none) { mesh_config = some end; values = some mesh });
}

mesh_values-precedence_example :
    (values : Fields) × (mesh_values library mesh_operator ≡ value values)
    × ((k : String)
        → at ("meshConfig" ∷ k ∷ []) (object values)
          ≡ or_else (lookup k (field "trustDomain" (text "cluster.local") end)) (lookup k end))
unfolding struct_to_map lookup
mesh_values-precedence_example =
    mesh_values-precedence library mesh_operator end
      (object (field "trustDomain" (text "cluster.local") end)) end refl refl refl (refl, tt, tt)

-- A library that cannot turn a message into JSON.
abbrev pub mute : Library
mute = record library { marshal = λ v. err bad_value }
