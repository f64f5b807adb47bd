-- ===== src/Controller/Reconcile/Reports.antt =====
-- What a reconcile writes into the status of its HelmApp, and what it answers.
use pluma_opeartor.Base.{String, ◌≡◌, refl, sym, subst, true, Option, none, some, List, [], ◌++◌}
use pluma_opeartor.Constants.{helm_app_finalizer, failed_after}
use pluma_opeartor.Effects.{
  GoError, ok, ◌>>=◌, if_error, if_err, Returns, bind-Returns, if_error-Returns,
}
use pluma_opeartor.Api.{
  HelmApp, HelmAppSpec, HelmRepo, HelmComponentStatus, Phase, failed, unknown, reconciling,
  succeeded, deleting,
}
use pluma_opeartor.Cluster.{Cluster}
use pluma_opeartor.Controller.Phase.{calculate_overall_phase}
use pluma_opeartor.Controller.Delete.{CtrlResult, finished, retry_after}
use pluma_opeartor.Controller.Uninstall.{new_action_configuration}
use pluma_opeartor.Controller.Reconcile.{
  desired_components, reported, ensure_finalizer, reconcile_components, uninstall_removed, publish,
  apply_spec, configure_spec, reconcile_spec, reconcile,
}
use pluma_opeartor.Controller.Reconcile.Statuses.{
  component_names, status_names, reconcile_components-names,
}
use pluma_opeartor.Controller.Component.Complete.{CompleteLaws}
use pluma_opeartor.Controller.Reconcile.Removed.{orphans}
use pluma_opeartor.Controller.Reconcile.Leftovers.{Leftovers, uninstall_removed-Leftovers}

-- A failed app comes back after a while, and no other does.
abbrev pub phase_result : Phase → CtrlResult
phase_result failed = retry_after failed_after
phase_result _ = finished

phase_answer :
    (p : Phase)
    → ◌≡◌ {A = CtrlResult × Option GoError}
        (elim p [ failed ↦ (retry_after failed_after, none) | _ ↦ (finished, none) ])
        (phase_result p, none)
phase_answer failed = refl
phase_answer unknown = refl
phase_answer reconciling = refl
phase_answer succeeded = refl
phase_answer deleting = refl

module _ (c : Cluster) where
  -- The HelmApp as it is sent to the server.
  abbrev pub with_statuses : HelmApp → List HelmComponentStatus → HelmApp
  with_statuses app statuses = record app {
    status =
        some (record { phase = calculate_overall_phase c app statuses; components = statuses });
  }

  abbrev pub verdict : HelmApp → List HelmComponentStatus → CtrlResult
  verdict app statuses = phase_result (calculate_overall_phase c app statuses)

  -- The last call is the update of the status: it reports the components of the spec by name, and after
  -- them, under their names and as failures, those of the reported components which the spec no longer
  -- mentions that could not be uninstalled. If it succeeds, the answer is that of the reported phase.
  pub record Reports (cfg : c.Config) (app : HelmApp) (spec : HelmAppSpec)
      (r : CtrlResult × Option GoError) (v : c.World) : Type 0 where
    pub installed : c.World
    pub before : c.World
    pub statuses : List HelmComponentStatus
    pub leftovers : List HelmComponentStatus
    pub names : status_names statuses ≡ component_names spec.components
    pub removed :
        Leftovers c cfg (orphans spec.components (reported c app.status)) leftovers installed before
    pub written : v ≡ (c.update_status (with_statuses app (statuses ++ leftovers)) before).1
    pub answer :
        (c.update_status (with_statuses app (statuses ++ leftovers)) before).0.0 ≡ none
        → r ≡ (verdict app (statuses ++ leftovers), none)

  no_error : {o : Option GoError} {x : GoError} → o ≡ none → o ≡ some x → ⊥
  no_error e f = cc

  publish-Reports :
      (cfg : c.Config) (app : HelmApp) (spec : HelmAppSpec)
      (statuses leftovers : List HelmComponentStatus) (w u : c.World)
      → status_names statuses ≡ component_names spec.components
      → Leftovers c cfg (orphans spec.components (reported c app.status)) leftovers w u
      → Returns (publish c app (statuses ++ leftovers) u) (Reports cfg app spec)
  unfolding publish ◌>>=◌
  publish-Reports cfg app spec statuses leftovers w u n f =
      if_error-Returns (Reports cfg app spec) _ _ _ _
        (λ x e. record {
          installed = w;
          before = u;
          statuses = statuses;
          leftovers = leftovers;
          names = n;
          removed = f;
          written = refl;
          answer = λ success. absurd (no_error success e);
        })
        (λ e. record {
          installed = w;
          before = u;
          statuses = statuses;
          leftovers = leftovers;
          names = n;
          removed = f;
          written = refl;
          answer = λ success. phase_answer _;
        })

  module _ (H : CompleteLaws c) (app : HelmApp) (spec : HelmAppSpec) (repo : HelmRepo)
      (e : app.spec ≡ some spec) (f : spec.repo ≡ some repo) where
    apply_spec_eq :
        (cfg : c.Config) (w : c.World)
        → apply_spec c app cfg w
          ≡ (reconcile_components c app cfg spec.components >>= λ statuses.
                uninstall_removed c cfg
                  (desired_components spec.components [])
                  (reported c app.status)
                >>= λ leftovers. publish c app (statuses ++ leftovers))
              w
    unfolding apply_spec
    apply_spec_eq cfg w = simp (e, apply_spec)

    apply_spec-Reports :
        (cfg : c.Config) (w : c.World) → Returns (apply_spec c app cfg w) (Reports cfg app spec)
    apply_spec-Reports cfg w =
        subst (λ r. Returns r (Reports cfg app spec)) (sym (apply_spec_eq cfg w))
          (bind-Returns (λ statuses v. status_names statuses ≡ component_names spec.components)
            (Reports cfg app spec) (reconcile_components c app cfg spec.components) _ w
            (reconcile_components-names c app spec repo H cfg spec.components w e f)
            (λ statuses v n.
              bind-Returns
                (λ leftovers u.
                  Leftovers c cfg (orphans spec.components (reported c app.status)) leftovers v u)
                (Reports cfg app spec) (uninstall_removed c cfg _ _) _ v
                (uninstall_removed-Leftovers c cfg spec.components (reported c app.status) v)
                (λ leftovers u h. publish-Reports cfg app spec statuses leftovers v u n h)))

    -- Suppose that the Helm client and its configuration come up. Then the reconcile of a HelmApp that
    -- bears the finalizer, is not marked for deletion, and whose spec names a repository, returns,
    -- whatever Helm answers, if a release that Helm lists, installs or upgrades has its info, its
    -- chart and the chart's metadata. Its last call writes the status: one entry for each component
    -- of the spec, in order and by name; then a failed entry, by name and in order, for each of the
    -- reported components whose name the spec does not mention that could not be uninstalled; and
    -- the phase that these entries make. If the server takes the status, the reconcile asks to be
    -- called again after the delay of a failed app if that phase is FAILED, and not at all otherwise.
    pub reconcile-Reports :
        (ns name : String) (w : c.World) (client : c.Registry)
        → (c.get ns name w).0 ≡ ok app
        → c.is_zero app.meta.deletion_timestamp ≡ true
        → c.contains_finalizer app.meta.finalizers helm_app_finalizer ≡ true
        → (c.new_registry_client (c.get ns name w).1).0 ≡ ok client
        → (c.init
            (c.configuration client)
            app.meta.namespace
            (c.new_registry_client (c.get ns name w).1).1).0.0
          ≡ none
        → Returns (reconcile c ns name w) (
            Reports
              (c.init
                (c.configuration client)
                app.meta.namespace
                (c.new_registry_client (c.get ns name w).1).1).0.1
              app
              spec)
    unfolding reconcile reconcile_spec ensure_finalizer configure_spec new_action_configuration
        if_err if_error ◌>>=◌
    reconcile-Reports ns name w client g z b r i = rw (g, z, b, r, i) (apply_spec-Reports _ _)
