-- ===== src/Istio/Convert/Names.antt =====
-- Which components a converted IstioOperator has.
use pluma_opeartor.Base.{
  String, ◌≡◌, refl, ap, ap₂, ◌∙◌, sym, Bool, true, false, not, ◌&&◌, ◌==◌, Option, none, some,
  List, [], ◌∷◌, ◌++◌, Bool-cases, inl, inr, if◌then◌else◌, arith,
}
use mathlib.Core.List.{map-append}
use pluma_opeartor.Effects.{ok}
use pluma_opeartor.Api.{HelmApp, HelmComponent}
use pluma_opeartor.Controller.Reconcile.Statuses.{component_names}
use pluma_opeartor.Istio.Step.{value, ◌>>=◌, Gives, bind-Gives, Gives-value, Gives-any}
use pluma_opeartor.Istio.Resource.{
  GatewaySpec, ComponentSpec, Components, IopSpec, IstioOperator, get_value, is_enabled, Library,
}
use pluma_opeartor.Istio.Convert.{
  template, empty_component, build_name, istiod_values, build_gateway, build_gateways, build_istiod,
  build_components, helm_app_of, chart_version, merge_iop_with_profile, convert_spec,
  convert_iop_to_helm_app, spec_components,
}

-- The names of the gateways that are enabled and named.
unfoldable pub gateway_names : IstioOperator → List GatewaySpec → List String
gateway_names iop [] = []
gateway_names iop (gw ∷ gateways) =
    let rest = gateway_names iop gateways in
    if get_value gw.enabled && not (gw.name == "") then build_name iop gw.name ∷ rest else rest

-- The names of all components, in order. The two ambient components have the empty name.
unfoldable pub expected_names : IstioOperator → IstioOperator → Option Components → List String
unfolding gateway_names
expected_names input iop none = []
expected_names input iop (some cs) =
    (if is_enabled cs.base then build_name input "base" ∷ [] else [])
    ++ ((if is_enabled cs.pilot then build_name input "istiod" ∷ [] else [])
        ++ (gateway_names iop cs.ingress_gateways
            ++ (gateway_names iop cs.egress_gateways
                ++ ((if is_enabled cs.cni then "" ∷ [] else [])
                    ++ (if is_enabled cs.ztunnel then "" ∷ [] else [])))))

names-append :
    (xs ys : List HelmComponent) {names rest : List String}
    → component_names xs ≡ names
    → component_names ys ≡ rest
    → component_names (xs ++ ys) ≡ names ++ rest
names-append xs ys h k = map-append _ xs ys ∙ ap₂ (λ a b. a ++ b) h k

module _ (lib : Library) where
  abbrev HasNames : List String → List HelmComponent → Type 0
  HasNames names cs = component_names cs ≡ names

  build_gateway-names :
      (iop : IstioOperator) (version : String) (gw : GatewaySpec)
      → Gives (HasNames (gateway_names iop (gw ∷ []))) (build_gateway lib iop version gw)
  unfolding build_gateway gateway_names
  build_gateway-names iop version gw = ground arith

  gateway_names-cons :
      (iop : IstioOperator) (gw : GatewaySpec) (gateways : List GatewaySpec)
      → gateway_names iop (gw ∷ gateways)
        ≡ gateway_names iop (gw ∷ []) ++ gateway_names iop gateways
  unfolding gateway_names
  gateway_names-cons iop gw gateways = ground arith

  build_gateways-names :
      (iop : IstioOperator) (version : String) (gateways : List GatewaySpec)
      → Gives (HasNames (gateway_names iop gateways)) (build_gateways lib iop version gateways)
  unfolding build_gateways
  build_gateways-names iop version [] = unfold gateway_names in refl
  build_gateways-names iop version (gw ∷ gateways) =
      bind-Gives (HasNames (gateway_names iop (gw ∷ [])))
        (HasNames (gateway_names iop (gw ∷ gateways))) (build_gateway lib iop version gw) _
        (build_gateway-names iop version gw)
        (λ first h.
          bind-Gives (HasNames (gateway_names iop gateways))
            (HasNames (gateway_names iop (gw ∷ gateways))) (build_gateways lib iop version gateways)
            _ (build_gateways-names iop version gateways)
            (λ rest k. names-append first rest h k ∙ sym (gateway_names-cons iop gw gateways)))

  build_istiod-names :
      (name version : String) (iop : IstioOperator) (pilot : Option ComponentSpec)
      → Gives
          (HasNames (if is_enabled pilot then name ∷ [] else []))
          (build_istiod lib name version iop pilot)
  unfolding build_istiod
  build_istiod-names name version iop pilot = elim (Bool-cases (is_enabled pilot)) [
    | inl e ↦
        rw (e, build_istiod)
          (bind-Gives (λ _. Unit {0}) (HasNames (name ∷ [])) (istiod_values lib iop pilot) _
            (Gives-any _) (λ built h. refl))
    | inr e ↦ rw (e, build_istiod) refl
  ]

  names-if :
      (b : Bool) (component : HelmComponent)
      → component_names (if b then component ∷ [] else []) ≡ (if b then component.name ∷ [] else [])
  names-if true component = refl
  names-if false component = refl

  build_components-names :
      (input : IstioOperator) (version : String) (iop : IstioOperator) (cs : Option Components)
      → Gives (HasNames (expected_names input iop cs)) (build_components lib input version iop cs)
  unfolding build_components expected_names
  build_components-names input version iop none = refl
  build_components-names input version iop (some cs) =
      bind-Gives (HasNames _) (HasNames _)
        (build_istiod lib (build_name input "istiod") version iop cs.pilot) _
        (build_istiod-names _ version iop cs.pilot)
        (λ istiod hi.
          bind-Gives (HasNames _) (HasNames _) (build_gateways lib iop version cs.ingress_gateways)
            _ (build_gateways-names iop version cs.ingress_gateways)
            (λ ingress hg.
              bind-Gives (HasNames _) (HasNames _)
                (build_gateways lib iop version cs.egress_gateways) _
                (build_gateways-names iop version cs.egress_gateways)
                (λ egress he.
                  names-append _ _
                    (names-if (is_enabled cs.base)
                      (template (build_name input "base") "base" version))
                    (names-append istiod _ hi (
                      names-append ingress _ hg (
                        names-append egress _ he (
                          names-append _ _ (names-if (is_enabled cs.cni) empty_component)
                            (names-if (is_enabled cs.ztunnel) empty_component))))))))

-- The components of the spec of a HelmApp that may have none.
abbrev pub spec_names : HelmApp → List String
spec_names app = elim app.spec [ none ↦ [] | some spec ↦ component_names spec.components ]

abbrev Fits : IstioOperator → IstioOperator → HelmApp → Type 0
Fits input iop app =
    (spec_names app ≡ expected_names input iop (spec_components iop))
    × (app.meta.name ≡ iop.meta.name)
    × (app.meta.namespace ≡ iop.meta.namespace)

pub convert_eq :
    (lib : Library) (dir : String) (input iop : IstioOperator) (spec : IopSpec)
    → input.spec ≡ some spec
    → merge_iop_with_profile lib dir input ≡ ok iop
    → convert_iop_to_helm_app lib dir input ≡ (
        build_components lib input (chart_version lib spec.tag) iop (spec_components iop)
        >>= λ components. value (helm_app_of lib iop components))
unfolding convert_iop_to_helm_app
convert_eq lib dir input iop spec s m = ap (convert_spec lib dir input) s ∙ rw m refl

-- If an IstioOperator that has a spec is converted, with `iop` what the profile made of it, then the
-- HelmApp has the operator's merged name and namespace, and its components are, by name and in this
-- order: the base and istiod if they are enabled, under the name from before the merge; each
-- ingress and each egress gateway that is enabled and has a name; and a component with the empty
-- name for each of cni and ztunnel that is enabled.
pub convert-names :
    (lib : Library) (dir : String) (input iop : IstioOperator) (spec : IopSpec) (app : HelmApp)
    → input.spec ≡ some spec
    → merge_iop_with_profile lib dir input ≡ ok iop
    → convert_iop_to_helm_app lib dir input ≡ value app
    → (spec_names app ≡ expected_names input iop (spec_components iop))
      × (app.meta.name ≡ iop.meta.name)
      × (app.meta.namespace ≡ iop.meta.namespace)
convert-names lib dir input iop spec app s m h =
    Gives-value (Fits input iop) _
      (bind-Gives (HasNames lib (expected_names input iop (spec_components iop))) (Fits input iop)
        (build_components lib input (chart_version lib spec.tag) iop (spec_components iop))
        (λ components. value (helm_app_of lib iop components))
        (build_components-names lib input _ iop (spec_components iop))
        (λ components e. unfold helm_app_of in (e, refl, refl)))
      (sym (convert_eq lib dir input iop spec s m) ∙ h)
