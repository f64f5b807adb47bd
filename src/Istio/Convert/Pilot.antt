-- ===== src/Istio/Convert/Pilot.antt =====
-- The pilot's resources, where the values have no section for the pilot.
use pluma_opeartor.Base.{
  ℕ, String, ◌≡◌, ◌≢◌, refl, ◌∙◌, sym, subst, Bool, true, false, ◌==◌, Option, none, some, List, [],
  ◌∷◌, arith,
}
use pluma_opeartor.Values.{Any, object, nil_object, pointer, Fields, end, field, lookup, insert}
use pluma_opeartor.Values.Lookup.{lookup-insert}
use pluma_opeartor.Values.Paths.{at}
use pluma_opeartor.Effects.{GoError, ok, err}
use pluma_opeartor.Api.{HelmApp, HelmComponent}
use pluma_opeartor.Istio.Step.{value, Gives, Gives-value, bind-Gives, from_result}
use pluma_opeartor.Istio.Resource.{
  ComponentSpec, Components, IopSpec, IstioOperator, get_field, Library,
}
use pluma_opeartor.Istio.Convert.{
  spec_values, spec_components, put_some, struct_any, put_resources, k8s_values,
  overlay_mesh_config, spec_mesh_config, mesh_overlay, mesh_values, istiod_values, build_istiod,
  build_components, chart_version, merge_iop_with_profile, convert_iop_to_helm_app,
}
use pluma_opeartor.Istio.Convert.Names.{convert_eq}

-- A pointer to a message stands in the map.
abbrev pub HasPointer : Fields → Type 0
HasPointer m = (p : List String) × (address : ℕ) × (at p (object m) ≡ some (pointer address))

lookup-put_some {ℓ} :
    {A : Type ℓ} (k j : String) (f : A → Any) (o : Option A) (m : Fields)
    → (k == j) ≡ false
    → lookup j (put_some k f o m) ≡ lookup j m
lookup-put_some k j f none m h = refl
lookup-put_some k j f (some x) m h = lookup-insert k j (f x) m ∙ rw h

pointer_at_resources :
    (address : ℕ) (m : Fields)
    → HasPointer (insert "pilot" (object (field "resources" (pointer address) end)) m)
unfolding at lookup
pointer_at_resources address m = (
  "pilot" ∷ "resources" ∷ [],
  address,
  rw (lookup-insert "pilot" "pilot" (object (field "resources" (pointer address) end)) m, at) refl,
)

module _ (lib : Library) where
  put_resources-pointer :
      (address : ℕ) (o : Option Any) (m : Fields)
      → o ≡ none
      → Gives HasPointer (put_resources lib address o m)
  unfolding put_resources
  put_resources-pointer address none m h = pointer_at_resources address m
  put_resources-pointer address (some x) m h = absurd (ground arith)

  k8s_values-pointer :
      (affinity : Option ℕ) (address : ℕ) (values : Fields)
      → lookup "pilot" values ≡ none
      → Gives HasPointer
          (k8s_values lib (some (record { affinity = affinity; resources = some address })) values)
  unfolding k8s_values
  k8s_values-pointer affinity address values h =
      put_resources-pointer address _ _
        (lookup-put_some "affinity" "pilot" _ affinity values refl ∙ h)

  abbrev NoPilot : Fields → Type 0
  NoPilot m = lookup "pilot" m ≡ none

  overlay_mesh_config-NoPilot :
      (mc : Fields) (o : Option Any) (m : Fields)
      → NoPilot m
      → Gives NoPilot (overlay_mesh_config mc o m)
  unfolding overlay_mesh_config
  overlay_mesh_config-NoPilot mc none m h = lookup-insert "meshConfig" "pilot" _ m ∙ h
  overlay_mesh_config-NoPilot mc (some (object old)) m h =
      lookup-insert "meshConfig" "pilot" _ m ∙ h
  overlay_mesh_config-NoPilot end (some nil_object) m h = h
  overlay_mesh_config-NoPilot (field k v mc) (some nil_object) m h = tt
  overlay_mesh_config-NoPilot mc (some _) m h = h

  mesh_overlay-NoPilot :
      (o : Option Any) (m : Fields) → NoPilot m → Gives NoPilot (mesh_overlay lib o m)
  unfolding mesh_overlay
  mesh_overlay-NoPilot none m h = h
  mesh_overlay-NoPilot (some mc) m h = overlay_mesh_config-NoPilot _ _ m h

  mesh_values-NoPilot : (iop : IstioOperator) → Gives NoPilot (mesh_values lib iop)
  unfolding mesh_values
  mesh_values-NoPilot iop = mesh_overlay-NoPilot _ _ (
      lookup-put_some "meshConfig" "pilot" _ (spec_mesh_config iop) end refl
      ∙ unfold lookup in refl)

  module _
      (refuses : (m : Fields) → HasPointer m → (e : GoError) × (lib.new_struct m ≡ err e)) where
    never_struct :
        (m : Fields) (f : GoError → GoError)
        → HasPointer m
        → Gives (λ (m : Fields). ⊥) (from_result f (lib.new_struct m))
    never_struct m f h = let (e, q) = refuses m h in rw q tt

    istiod_values-never :
        (iop : IstioOperator) (enabled : Option Bool) (affinity : Option ℕ) (address : ℕ)
        → get_field (spec_values iop) "pilot" ≡ none
        → Gives
            (λ (m : Fields). ⊥)
            (istiod_values lib iop (
              some (record {
                enabled = enabled;
                k8s = some (record { affinity = affinity; resources = some address });
              })))
    unfolding istiod_values
    istiod_values-never iop enabled affinity address h =
        bind-Gives NoPilot (λ m. ⊥) (mesh_values lib iop) _ (mesh_values-NoPilot iop)
          (λ m n. rw h (
            bind-Gives HasPointer (λ m. ⊥) (k8s_values lib _ _) _
              (k8s_values-pointer affinity address _ (
                lookup-put_some "sidecarInjectorWebhook" "pilot" (struct_any lib)
                  (get_field (spec_values iop) "sidecarInjectorWebhook") m refl
                ∙ n))
              (λ m' k. never_struct m' _ k)))

    build_istiod-never :
        (name version : String) (iop : IstioOperator) (pilot : Option ComponentSpec)
        (affinity : Option ℕ) (address : ℕ)
        → pilot
          ≡ some (record {
            enabled = some true;
            k8s = some (record { affinity = affinity; resources = some address });
          })
        → get_field (spec_values iop) "pilot" ≡ none
        → Gives (λ (cs : List HelmComponent). ⊥) (build_istiod lib name version iop pilot)
    unfolding build_istiod
    build_istiod-never name version iop pilot affinity address e h =
        subst (λ p. Gives (λ (cs : List HelmComponent). ⊥) (build_istiod lib name version iop p))
          (sym e)
          (bind-Gives (λ (m : Fields). ⊥) (λ (cs : List HelmComponent). ⊥) (istiod_values lib iop _)
            _ (istiod_values-never iop (some true) affinity address h) (λ m x. absurd x))

    -- Suppose that `NewStruct` refuses maps that hold a pointer to a message. Then an IstioOperator
    -- with an enabled pilot that has resources in its `k8s` section, and with no `pilot` section in
    -- its values, once the profile is merged in, is never converted to a HelmApp.
    pub pilot_resources_rejected :
        (dir : String) (input iop : IstioOperator) (spec : IopSpec) (cs : Components)
        (affinity : Option ℕ) (address : ℕ) (app : HelmApp)
        → input.spec ≡ some spec
        → merge_iop_with_profile lib dir input ≡ ok iop
        → spec_components iop ≡ some cs
        → cs.pilot
          ≡ some (record {
            enabled = some true;
            k8s = some (record { affinity = affinity; resources = some address });
          })
        → get_field (spec_values iop) "pilot" ≡ none
        → convert_iop_to_helm_app lib dir input ≢ value app
    pilot_resources_rejected dir input iop spec cs affinity address app s m e p h q =
        Gives-value (λ (app : HelmApp). ⊥) _
          (bind-Gives (λ (cs : List HelmComponent). ⊥) (λ (app : HelmApp). ⊥)
            (build_components lib input (chart_version lib spec.tag) iop (spec_components iop)) _
            (subst
              (λ o.
                Gives (λ (cs : List HelmComponent). ⊥)
                  (build_components lib input (chart_version lib spec.tag) iop o))
              (sym e)
              (unfold build_components in
                bind-Gives (λ (cs : List HelmComponent). ⊥) (λ (cs : List HelmComponent). ⊥)
                  (build_istiod lib _ _ iop cs.pilot) _
                  (build_istiod-never _ _ iop cs.pilot affinity address p h) (λ x y. absurd y)))
            (λ x y. absurd y))
          (sym (convert_eq lib dir input iop spec s m) ∙ q)
