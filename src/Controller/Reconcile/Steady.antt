-- ===== src/Controller/Reconcile/Steady.antt =====
-- A HelmApp whose releases are all as they are wanted: its reconcile neither installs nor upgrades nor
-- uninstalls.
use pluma_opeartor.Base.{String, ◌≡◌, refl, true, false, Option, none, some, List, [], ◌∷◌, All}
use pluma_opeartor.Values.{IsMap}
use pluma_opeartor.Values.Equal.Laws.{NoNan}
use pluma_opeartor.Constants.{helm_app_finalizer, server_failed_after}
use pluma_opeartor.Controller.Delete.{retry_after}
use pluma_opeartor.Effects.{
  GoError, ok, pure, call, wrap, ◌>>=◌, if_error, if_err, Keeps, keeps_rules, Keeps-bind,
  Keeps-pure, Keeps-if_err,
}
use pluma_opeartor.Api.{HelmApp, HelmAppSpec, HelmComponent, HelmComponentStatus}
use pluma_opeartor.Cluster.{Cluster}
use pluma_opeartor.Controller.Uninstall.{new_action_configuration}
use pluma_opeartor.Controller.Component.{component_values, reconcile_component}
use pluma_opeartor.Controller.Component.Untouched.{ReadLaws}
use pluma_opeartor.Controller.Component.Steady.{IsCurrent, reconcile_component_steady}
use pluma_opeartor.Controller.Reconcile.{
  desired_components, is_removed, reported, ensure_finalizer, reconcile_components,
  uninstall_removed, publish, apply_spec, configure_spec, reconcile_spec, reconcile,
}

-- A property of the world that the calls keep which a reconcile may make when nothing has to change.
-- Nothing is said of installs, upgrades, uninstalls and the update of the finalizers.
pub record SteadyLaws (c : Cluster) (P : c.World → Type 0) : Type 1 where
  pub reads : ReadLaws c P
  pub get-P : (ns n : String) (w : c.World) → P w → P (c.get ns n w).1
  pub update_status-P : (app : HelmApp) (w : c.World) → P w → P (c.update_status app w).1
  pub registry-P : (w : c.World) → P w → P (c.new_registry_client w).1
  -- The configuration was initialised for the namespace.
  pub IsConfig : String → c.Config → Type 0
  pub init-IsConfig :
      (cfg : c.Config) (ns : String) (w : c.World)
      → (c.init cfg ns w).0.0 ≡ none
      → IsConfig ns (c.init cfg ns w).0.1
  pub init-P : (cfg : c.Config) (ns : String) (w : c.World) → P w → P (c.init cfg ns w).1

-- The release of a component in the namespace is as its spec wants it, in every world that has the
-- property. The wanted values have no key twice at any depth and no NaN.
pub record IsSettled (c : Cluster) {P : c.World → Type 0} (L : SteadyLaws c P) (ns : String)
    (spec : HelmAppSpec) (component : HelmComponent) : Type 0 where
  pub values-IsMap : IsMap (component_values c spec component)
  pub values-NoNan : NoNan (component_values c spec component)
  pub current :
      (cfg : c.Config) (w : c.World)
      → L.IsConfig ns cfg
      → P w
      → IsCurrent c spec component (c.history cfg component.name w).0

module _ (c : Cluster) {P : c.World → Type 0} (L : SteadyLaws c P) where
  open L use {reads, get-P, update_status-P, registry-P, init-P}

  reconcile_components-Keeps :
      (app : HelmApp) (spec : HelmAppSpec) (cfg : c.Config) (components : List HelmComponent)
      (ns : String)
      → L.IsConfig ns cfg
      → app.spec ≡ some spec
      → All (IsSettled c L ns spec) components
      → Keeps P (reconcile_components c app cfg components)
  unfolding reconcile_components
  reconcile_components-Keeps app spec cfg [] ns q e h = search keeps_rules
  reconcile_components-Keeps app spec cfg (component ∷ components) ns q e (s, h) =
      let rest : Keeps P (reconcile_components c app cfg components) =
        reconcile_components-Keeps app spec cfg components ns q e h in
      Keeps-bind (reconcile_component c app component cfg) _
        (reconcile_component_steady c reads spec component cfg s.values-IsMap s.values-NoNan
          (λ w p. s.current cfg w q p) app e)
        (λ (status, x). search (keeps_rules, rest))

  nothing_removed-Keeps :
      (cfg : c.Config) (components : List HelmComponent) (statuses : List HelmComponentStatus)
      → All (λ s. is_removed (desired_components components []) s ≡ false) statuses
      → Keeps P (uninstall_removed c cfg (desired_components components []) statuses)
  unfolding uninstall_removed
  nothing_removed-Keeps cfg components [] h = search keeps_rules
  nothing_removed-Keeps cfg components (s ∷ statuses) (e, h) =
      rw (e, uninstall_removed) (nothing_removed-Keeps cfg components statuses h)

  publish-Keeps :
      (app : HelmApp) (statuses : List HelmComponentStatus) → Keeps P (publish c app statuses)
  unfolding publish
  publish-Keeps app statuses = search (keeps_rules, update_status-P)

  new_action_configuration-Keeps : Keeps P (new_action_configuration c)
  unfolding new_action_configuration
  new_action_configuration-Keeps = search (keeps_rules, registry-P)

  module _ (app : HelmApp) (spec : HelmAppSpec) (e : app.spec ≡ some spec)
      (h : All (IsSettled c L app.meta.namespace spec) spec.components)
      (n : All
        (λ s. is_removed (desired_components spec.components []) s ≡ false)
        (reported c app.status)) where
    apply_spec-Keeps :
        (cfg : c.Config) → L.IsConfig app.meta.namespace cfg → Keeps P (apply_spec c app cfg)
    unfolding apply_spec
    apply_spec-Keeps cfg q =
        rw (e, apply_spec)
          (Keeps-bind (reconcile_components c app cfg spec.components) _
            (reconcile_components-Keeps app spec cfg spec.components app.meta.namespace q e h)
            (λ statuses.
              Keeps-bind (uninstall_removed c cfg _ (reported c app.status)) _
                (nothing_removed-Keeps cfg spec.components (reported c app.status) n)
                (λ failures. publish-Keeps app _)))

    initialised-Keeps :
        (x : Option GoError) (cfg : c.Config)
        → (x ≡ none → L.IsConfig app.meta.namespace cfg)
        → Keeps P (
            if_error x
              (λ failure. pure (
                retry_after server_failed_after,
                some (wrap "failed to initialize Helm action config: " failure),
              ))
              (apply_spec c app cfg))
    unfolding if_error
    initialised-Keeps none cfg q = apply_spec-Keeps cfg (q refl)
    initialised-Keeps (some x) cfg q = Keeps-pure _

    init-Keeps :
        (cfg : c.Config)
        → Keeps P (
            call (c.init cfg app.meta.namespace) >>= λ (x, cfg').
            if_error x
              (λ failure. pure (
                retry_after server_failed_after,
                some (wrap "failed to initialize Helm action config: " failure),
              ))
              (apply_spec c app cfg'))
    unfolding call ◌>>=◌
    init-Keeps cfg = record {
      at = λ w p.
          (initialised-Keeps (c.init cfg app.meta.namespace w).0.0
              (c.init cfg app.meta.namespace w).0.1 (L.init-IsConfig cfg app.meta.namespace w)).at
            _ (init-P cfg app.meta.namespace w p);
    }

    configure_spec-Keeps : Keeps P (configure_spec c app)
    unfolding configure_spec
    configure_spec-Keeps =
        Keeps-bind (new_action_configuration c) _ new_action_configuration-Keeps
          (λ r. Keeps-if_err r _ _ (λ e. Keeps-pure _) init-Keeps)

    reconcile_spec-keeps :
        (w : c.World)
        → c.contains_finalizer app.meta.finalizers helm_app_finalizer ≡ true
        → P w
        → P (reconcile_spec c app w).1
    unfolding reconcile_spec ensure_finalizer if_error ◌>>=◌
    reconcile_spec-keeps w b p = rw (b, ensure_finalizer) (configure_spec-Keeps.at w p)

    -- Suppose that the property of the world outlives all calls that a reconcile makes but installs,
    -- upgrades, uninstalls and updates of the finalizers; that for each component of the spec, in
    -- every world which has the property, the history that Helm gives for a configuration of the
    -- HelmApp's namespace ends with a revision that bears the wanted chart version and, as its
    -- configuration, the wanted values; and that no key stands twice in these and none of them is
    -- NaN. Then the reconcile of a HelmApp that bears the finalizer, is not marked for deletion, and
    -- none of whose reported components is missing from the spec, keeps the property: in the steady
    -- state nothing is installed, upgraded or uninstalled.
    pub reconcile_steady :
        (ns name : String) (w : c.World)
        → (c.get ns name w).0 ≡ ok app
        → c.is_zero app.meta.deletion_timestamp ≡ true
        → c.contains_finalizer app.meta.finalizers helm_app_finalizer ≡ true
        → P w
        → P (reconcile c ns name w).1
    unfolding reconcile if_err ◌>>=◌
    reconcile_steady ns name w g t b p =
        rw (g, if_err, t) (reconcile_spec-keeps _ b (get-P ns name w p))
