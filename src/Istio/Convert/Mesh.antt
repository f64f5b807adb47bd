-- ===== src/Istio/Convert/Mesh.antt =====
-- The mesh configuration of istiod, from `meshConfig` and `values.meshConfig`.
use pluma_opeartor.Base.{String, ◌≡◌, refl, ◌∙◌, eq_iff, Option, none, some, [], ◌∷◌, arith}
use pluma_opeartor.Values.{Any, object, Fields, end, field, lookup, insert, IsMap}
use pluma_opeartor.Values.Lookup.{lookup-insert}
use pluma_opeartor.Values.Paths.{at}
use pluma_opeartor.Values.Merge.{copy_into}
use pluma_opeartor.Istio.Step.{value, crash}
use pluma_opeartor.Istio.Resource.{IstioOperator, get_field, Library}
use pluma_opeartor.Istio.Convert.{
  spec_values, spec_mesh_config, struct_to_map, overlay_mesh_config, mesh_overlay, mesh_values,
}

abbrev pub or_else : Option Any → Option Any → Option Any
or_else none other = other
or_else (some v) other = some v

lookup-copy_into :
    (k : String) (a out : Fields)
    → IsMap a
    → lookup k (copy_into a out) ≡ or_else (lookup k a) (lookup k out)
unfolding copy_into lookup
lookup-copy_into k end out u = refl
lookup-copy_into k (field j v a) out u =
    lookup-copy_into k a (insert j v out) u.2 ∙ ground (arith, lookup-insert j k v out, eq_iff j k)

module _ (lib : Library) (iop : IstioOperator) (mc : Fields) (v : Any) where
  -- Both configurations are given: every setting of `values.meshConfig` takes precedence over that
  -- of `meshConfig`, and where it has none, that of `meshConfig` stands, provided that `meshConfig`
  -- converts to a map and no key stands twice in `values.meshConfig`.
  pub mesh_values-precedence :
      (s : Fields)
      → spec_mesh_config iop ≡ some mc
      → get_field (spec_values iop) "meshConfig" ≡ some v
      → struct_to_map lib (object mc) ≡ some s
      → IsMap (lib.as_map (lib.get_struct_value v))
      → (values : Fields) × (mesh_values lib iop ≡ value values)
        × ((k : String)
            → at ("meshConfig" ∷ k ∷ []) (object values)
              ≡ or_else (lookup k (lib.as_map (lib.get_struct_value v))) (lookup k s))
  unfolding mesh_values mesh_overlay overlay_mesh_config at insert lookup
  mesh_values-precedence s e f g u = (
    field "meshConfig" (object (copy_into (lib.as_map (lib.get_struct_value v)) s)) end,
    rw (e, f, g) refl,
    λ k. ground (arith, lookup-copy_into k (lib.as_map (lib.get_struct_value v)) s u),
  )

  -- If `meshConfig` does not convert to a map, and `values.meshConfig` has a setting, then the
  -- conversion of the mesh configuration panics: it writes to a nil map.
  pub mesh_values-panics :
      (k : String) (x : Any) (rest : Fields)
      → spec_mesh_config iop ≡ some mc
      → get_field (spec_values iop) "meshConfig" ≡ some v
      → struct_to_map lib (object mc) ≡ none
      → lib.as_map (lib.get_struct_value v) ≡ field k x rest
      → mesh_values lib iop ≡ crash
  unfolding mesh_values mesh_overlay overlay_mesh_config insert lookup
  mesh_values-panics k x rest e f g h = rw (e, f, g, h) refl
