-- ===== src/Controller/Reconcile/Returning.antt =====
-- A reconcile returns if the HelmApp has a spec that names a repository, and panics if it names none.
use pluma_opeartor.Base.{
  String, ◌≡◌, refl, ◌∙◌, true, Option, none, some, List, [], ◌∷◌, Bool-cases, inl, inr,
}
use pluma_opeartor.Base.Dict.{Dict}
use pluma_opeartor.Effects.{GoError, ok, panicked, pure, panic, ◌>>=◌, if_error, if_err, Returns}
use pluma_opeartor.Effects.Total.{Total, total_rules, Total-bind, Total-pure}
use pluma_opeartor.Constants.{helm_app_finalizer, server_failed_after}
use pluma_opeartor.Api.{HelmApp, HelmAppSpec, HelmRepo, HelmComponent, HelmComponentStatus}
use pluma_opeartor.Cluster.{Cluster, Release}
use pluma_opeartor.Controller.Delete.{retry_after}
use pluma_opeartor.Controller.Uninstall.{
  new_action_configuration, uninstall_found, uninstall_component,
}
use pluma_opeartor.Controller.Component.{reconcile_component}
use pluma_opeartor.Controller.Component.Complete.{CompleteLaws}
use pluma_opeartor.Controller.Component.Returning.{reconcile_component-Total}
use pluma_opeartor.Controller.Reconcile.{
  ensure_finalizer, is_removed, reconcile_components, uninstall_removed, publish, apply_spec,
  configure_spec, reconcile_spec, reconcile,
}

-- An update of the finalizers hands back the spec that was sent.
abbrev pub KeepsSpec : Cluster → Type 0
KeepsSpec c = (app : HelmApp) (w : c.World) → (c.update app w).0.1.spec ≡ app.spec

module _ (c : Cluster) where
  uninstall_found-Total :
      (cfg : c.Config) (n : String) (e : Option GoError) (release : Option Release)
      → Total (uninstall_found c cfg n e release)
  unfolding uninstall_found
  uninstall_found-Total cfg n (some e) release = search total_rules
  uninstall_found-Total cfg n none none = search total_rules
  uninstall_found-Total cfg n none (some release) = search total_rules

  pub uninstall_component-Total :
      (cfg : c.Config) (n : String) → Total (uninstall_component c cfg n)
  unfolding uninstall_component
  uninstall_component-Total cfg n = search (total_rules, uninstall_found-Total)

  uninstall_removed-Total :
      (cfg : c.Config) (desired : Dict HelmComponent) (statuses : List HelmComponentStatus)
      → Total (uninstall_removed c cfg desired statuses)
  unfolding uninstall_removed
  uninstall_removed-Total cfg desired [] = search total_rules
  uninstall_removed-Total cfg desired (s ∷ statuses) =
      let rest : Total (uninstall_removed c cfg desired statuses) =
        uninstall_removed-Total cfg desired statuses in
      elim (Bool-cases (is_removed desired s)) [
        | inl e ↦
            rw (e, uninstall_removed)
              (Total-bind (uninstall_component c cfg s.name) _
                (uninstall_component-Total cfg s.name)
                (λ x.
                  Total-bind (uninstall_removed c cfg desired statuses) _ rest
                    (λ ys. Total-pure _)))
        | inr e ↦ rw (e, uninstall_removed) rest
      ]

  publish-Total :
      (app : HelmApp) (statuses : List HelmComponentStatus) → Total (publish c app statuses)
  unfolding publish
  publish-Total app statuses = search total_rules

  new_action_configuration-Total : Total (new_action_configuration c)
  unfolding new_action_configuration
  new_action_configuration-Total = search total_rules

  module _ (H : CompleteLaws c) (spec : HelmAppSpec) (repo : HelmRepo)
      (f : spec.repo ≡ some repo) where
    reconcile_components-Total :
        (app : HelmApp) (cfg : c.Config) (components : List HelmComponent)
        → app.spec ≡ some spec
        → Total (reconcile_components c app cfg components)
    unfolding reconcile_components
    reconcile_components-Total app cfg [] e = search total_rules
    reconcile_components-Total app cfg (component ∷ components) e =
        let rest : Total (reconcile_components c app cfg components) =
          reconcile_components-Total app cfg components e in
        Total-bind (reconcile_component c app component cfg) _
          (reconcile_component-Total c H app spec repo component cfg e f)
          (λ (status, x). search (total_rules, rest))

    apply_spec-Total :
        (app : HelmApp) (cfg : c.Config) → app.spec ≡ some spec → Total (apply_spec c app cfg)
    unfolding apply_spec
    apply_spec-Total app cfg e =
        rw (e, apply_spec)
          (Total-bind (reconcile_components c app cfg spec.components) _
            (reconcile_components-Total app cfg spec.components e)
            (λ statuses.
              Total-bind (uninstall_removed c cfg _ _) _ (uninstall_removed-Total cfg _ _)
                (λ failures. publish-Total app _)))

    configure_spec-Total : (app : HelmApp) → app.spec ≡ some spec → Total (configure_spec c app)
    unfolding configure_spec
    configure_spec-Total app e =
        search (total_rules, new_action_configuration-Total, apply_spec-Total app _ e)

    after_finalizer-Total :
        (x : Option GoError) (app : HelmApp)
        → app.spec ≡ some spec
        → Total (
            if_error x
              (λ failure. pure {W = c.World} (retry_after server_failed_after, some failure))
              (configure_spec c app))
    after_finalizer-Total x app e = search (total_rules, configure_spec-Total app e)

    reconcile_spec-Returns :
        KeepsSpec c
        → (app : HelmApp) (w : c.World) → app.spec ≡ some spec
        → Returns (reconcile_spec c app w) (λ r v. Unit {0})
    unfolding reconcile_spec ensure_finalizer ◌>>=◌
    reconcile_spec-Returns k app w e =
        elim (Bool-cases (c.contains_finalizer app.meta.finalizers helm_app_finalizer)) [
          | inl b ↦ rw (b, ensure_finalizer) ((after_finalizer-Total none app e).at w)
          | inr b ↦ rw (b, ensure_finalizer) ((after_finalizer-Total _ _ (k _ w ∙ e)).at _)
        ]

    -- The reconcile of a HelmApp that is not marked for deletion and whose spec names a repository
    -- returns in every world, whatever the server and Helm answer, under two conditions: an update
    -- hands back the spec that was sent, and a release that Helm lists, installs or upgrades has its
    -- info, its chart and the chart's metadata, none of which the code tests for nil.
    pub reconcile-Returns :
        KeepsSpec c
        → (ns n : String) (app : HelmApp) (w : c.World) → (c.get ns n w).0 ≡ ok app
        → c.is_zero app.meta.deletion_timestamp ≡ true
        → app.spec ≡ some spec
        → Returns (reconcile c ns n w) (λ r v. Unit {0})
    unfolding reconcile if_err ◌>>=◌
    reconcile-Returns k ns n app w g z e = rw (g, if_err, z) (reconcile_spec-Returns k app _ e)

  module _ (app : HelmApp) (spec : HelmAppSpec) (e : app.spec ≡ some spec)
      (f : spec.repo ≡ none) where
    component_panics :
        (component : HelmComponent) (cfg : c.Config) (w : c.World)
        → reconcile_component c app component cfg w ≡ (panicked, w)
    unfolding reconcile_component panic
    component_panics component cfg w = rw (e, f, reconcile_component) refl

    components_panic :
        (component : HelmComponent) (components : List HelmComponent) (cfg : c.Config) (w : c.World)
        → reconcile_components c app cfg (component ∷ components) w ≡ (panicked, w)
    unfolding reconcile_components ◌>>=◌
    components_panic component components cfg w = rw (component_panics component cfg w) refl

    apply_spec_panics :
        (component : HelmComponent) (components : List HelmComponent) (cfg : c.Config) (w : c.World)
        → spec.components ≡ component ∷ components
        → (apply_spec c app cfg w).0 ≡ panicked
    unfolding apply_spec ◌>>=◌
    apply_spec_panics component components cfg w h =
        rw (e, apply_spec) (rw h (rw (components_panic component components cfg w) refl))

  -- If the Helm client and its configuration come up, the reconcile of a HelmApp that bears the
  -- finalizer, is not marked for deletion, and whose spec has a component but no repository,
  -- panics, even if every component names a repository of its own.
  pub reconcile_without_repo_panics :
      (ns n : String) (app : HelmApp) (spec : HelmAppSpec) (component : HelmComponent)
      (components : List HelmComponent) (w : c.World) (client : c.Registry)
      → (c.get ns n w).0 ≡ ok app
      → c.is_zero app.meta.deletion_timestamp ≡ true
      → c.contains_finalizer app.meta.finalizers helm_app_finalizer ≡ true
      → (c.new_registry_client (c.get ns n w).1).0 ≡ ok client
      → (c.init
          (c.configuration client)
          app.meta.namespace
          (c.new_registry_client (c.get ns n w).1).1).0.0
        ≡ none
      → app.spec ≡ some spec
      → spec.repo ≡ none
      → spec.components ≡ component ∷ components
      → (reconcile c ns n w).0 ≡ panicked
  unfolding reconcile reconcile_spec ensure_finalizer configure_spec new_action_configuration if_err
      if_error ◌>>=◌
  reconcile_without_repo_panics ns n app spec component components w client g z b r i e f h =
      rw (g, z, b, r, i) (apply_spec_panics app spec e f component components _ _ h)
