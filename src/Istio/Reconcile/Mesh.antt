-- ===== src/Istio/Reconcile/Mesh.antt =====
-- A mesh configuration that cannot be turned into JSON.
use pluma_opeartor.Base.{String, ◌≡◌, ◌≢◌, refl, ◌∙◌, true, some}
use pluma_opeartor.Values.{Any, object, Fields, end, field}
use pluma_opeartor.Effects.{GoError, ok, err, panicked, pure}
use pluma_opeartor.Constants.{iop_finalizer}
use pluma_opeartor.Istio.Step.{crash}
use pluma_opeartor.Istio.Resource.{
  Components, IopSpec, IstioOperator, is_enabled, get_field, Library,
}
use pluma_opeartor.Istio.Convert.{
  spec_values, spec_components, spec_mesh_config, struct_to_map, mesh_values, istiod_values,
  build_istiod, build_components, merge_iop_with_profile, convert_iop_to_helm_app,
}
use pluma_opeartor.Istio.Convert.Names.{convert_eq}
use pluma_opeartor.Istio.Convert.Mesh.{mesh_values-panics}
use pluma_opeartor.Istio.Reconcile.{Cluster, ensure_finalizer, reconcile}
use pluma_opeartor.Istio.Reconcile.Panics.{reconcile_panics}

first_entry :
    (m : Fields) → m ≢ end → (k : String) × (x : Any) × (rest : Fields) × (m ≡ field k x rest)
first_entry end n = absurd (n refl)
first_entry (field k x rest) n = (k, x, rest, refl)

module _ (lib : Library) (dir : String) (input iop : IstioOperator) (spec : IopSpec)
    (cs : Components) (mc : Fields) (v : Any) (x : GoError) where
  -- The mesh configuration of the operator, once the profile is merged in, is refused by the JSON
  -- marshaller, its pilot is enabled, and `values.meshConfig` has a setting.
  pub record IsUnwritable : Type 0 where
    pub spec-given : input.spec ≡ some spec
    pub merged : merge_iop_with_profile lib dir input ≡ ok iop
    pub components : spec_components iop ≡ some cs
    pub pilot : is_enabled cs.pilot ≡ true
    pub mesh : spec_mesh_config iop ≡ some mc
    pub refused : lib.marshal (object mc) ≡ err x
    pub overlay : get_field (spec_values iop) "meshConfig" ≡ some v
    pub settings : lib.as_map (lib.get_struct_value v) ≢ end

  module _ (h : IsUnwritable) where
    mesh_values_crash : mesh_values lib iop ≡ crash
    mesh_values_crash =
        let (k, y, rest, e) = first_entry _ h.settings in
        mesh_values-panics lib iop mc v k y rest h.mesh h.overlay
          (unfold struct_to_map in rw (h.refused, struct_to_map) refl) e

    istiod_crash : (name version : String) → build_istiod lib name version iop cs.pilot ≡ crash
    unfolding build_istiod istiod_values
    istiod_crash name version = rw (h.pilot, mesh_values_crash) refl

    convert_crash : convert_iop_to_helm_app lib dir input ≡ crash
    convert_crash =
        convert_eq lib dir input iop spec h.spec-given h.merged
        ∙ rw h.components (unfold build_components in rw (istiod_crash _ _) refl)

    -- Suppose that the mesh configuration of an IstioOperator, once the profile is merged in, cannot be
    -- marshalled to JSON, that its pilot is enabled, and that its `values.meshConfig` has a setting.
    -- Then each reconcile of it, while it bears its finalizer and is not marked for deletion, panics,
    -- in every world: the conversion writes the setting to a nil map.
    pub unwritable_mesh_panics :
        (c : Cluster) (ns n : String) (w : c.World)
        → (c.get_iop ns n w).0 ≡ ok input
        → c.is_zero input.meta.deletion_timestamp ≡ true
        → c.contains_finalizer input.meta.finalizers iop_finalizer ≡ true
        → (reconcile c lib dir ns n w).0 ≡ panicked
    unfolding ensure_finalizer pure
    unwritable_mesh_panics c ns n w g z b =
        (reconcile_panics c lib dir ns n w).1
          (input, g, z, (input, (c.get_iop ns n w).1, rw b refl, convert_crash))
