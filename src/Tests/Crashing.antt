-- ===== src/Tests/Crashing.antt =====
-- A reconcile of an IstioOperator whose mesh configuration cannot be turned into JSON.
use pluma_opeartor.Base.{◌≡◌, ◌↔◌, ◌≢◌, refl, true, none, some}
use pluma_opeartor.Effects.{panicked, ok, pure}
use pluma_opeartor.Istio.Reconcile.{Cluster, ensure_finalizer, reconcile}
use pluma_opeartor.Istio.Reconcile.Panics.{ReadsCrashing, reconcile_panics}
use pluma_opeartor.Istio.Convert.{
  convert_iop_to_helm_app, merge_iop_with_profile, build_components, build_istiod, istiod_values,
  mesh_values, mesh_overlay, overlay_mesh_config, struct_to_map, chart_version,
}
use pluma_opeartor.Values.{Fields, end, field, object, text, lookup, insert}
use pluma_opeartor.Istio.Resource.{IopSpec}
use pluma_opeartor.Istio.Reconcile.Mesh.{IsUnwritable, unwritable_mesh_panics}
use pluma_opeartor.Tests.Operators.{
  mute, mesh, mesh_operator, bad_value, spec_with, components_with,
}
use pluma_opeartor.Tests.Server.{Server, server}

abbrev mesh_server : Cluster
mesh_server = record server {
  contains_finalizer = λ fs f. true;
  get_iop = λ ns n w. (ok mesh_operator, w);
}

abbrev at_start : Server
at_start = record { stored = none; has_finalizer = true }

reconcile_panics_example :
    ((reconcile mesh_server mute "profiles" "istio-system" "mesh" at_start).0 ≡ panicked)
    ↔ ReadsCrashing mesh_server mute "profiles" "istio-system" "mesh" at_start
reconcile_panics_example =
    reconcile_panics mesh_server mute "profiles" "istio-system" "mesh" at_start

panic_test : (reconcile mesh_server mute "profiles" "istio-system" "mesh" at_start).0 ≡ panicked
unfolding ensure_finalizer convert_iop_to_helm_app merge_iop_with_profile build_components
    build_istiod istiod_values mesh_values mesh_overlay overlay_mesh_config struct_to_map
    chart_version pure lookup insert
panic_test =
    (reconcile_panics mesh_server mute "profiles" "istio-system" "mesh" at_start).1
      (mesh_operator, refl, refl, (mesh_operator, at_start, refl, refl))

abbrev mesh_spec : IopSpec
mesh_spec = record (spec_with none) { mesh_config = some end; values = some mesh }

mesh_settings : ◌≢◌ {A = Fields} (field "trustDomain" (text "cluster.local") end) end
mesh_settings e = cc

unwritable :
    IsUnwritable mute "profiles" mesh_operator mesh_operator mesh_spec
      (components_with none)
      end
      (object (field "trustDomain" (text "cluster.local") end))
      bad_value
unfolding merge_iop_with_profile lookup
unwritable = record {
  spec-given = refl;
  merged = refl;
  components = refl;
  pilot = refl;
  mesh = refl;
  refused = refl;
  overlay = refl;
  settings = mesh_settings;
}

unwritable_mesh_panics_example :
    (reconcile mesh_server mute "profiles" "istio-system" "mesh" at_start).0 ≡ panicked
unwritable_mesh_panics_example =
    unwritable_mesh_panics mute "profiles" mesh_operator mesh_operator mesh_spec
      (components_with none) end (object (field "trustDomain" (text "cluster.local") end)) bad_value
      unwritable mesh_server "istio-system" "mesh" at_start refl refl refl
