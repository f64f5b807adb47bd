-- ===== src/Controller/Reconcile.antt =====
-- `Reconcile` of the HelmApp controller.
pub mod Removed
pub mod Statuses
pub mod Leftovers
pub mod Spares
pub mod Steady
pub mod Reports
pub mod Returning
pub mod Retries
use pluma_opeartor.Base.{
  ℕ, String, ◌<>◌, Bool, true, false, not, ◌==◌, ◌&&◌, Option, none, some, is_some, List, [], ◌∷◌,
  ◌++◌, if◌then◌else◌,
}
use pluma_opeartor.Base.Dict
use pluma_opeartor.Base.Dict.{Dict}
use pluma_opeartor.Constants.{helm_app_finalizer, failed_after, server_failed_after}
use pluma_opeartor.Effects.{
  GoError, Result, ok, err, Action, pure, panic, call, ◌>>=◌, errorf, wrap, if_error, if_err,
}
use pluma_opeartor.Api.{
  HelmApp, HelmAppSpec, HelmAppStatus, HelmComponent, HelmComponentStatus, Phase, unknown, failed,
}
use pluma_opeartor.Cluster.{Cluster}
use pluma_opeartor.Controller.Phase.{calculate_overall_phase}
use pluma_opeartor.Controller.Uninstall.{new_action_configuration, uninstall_component}
use pluma_opeartor.Controller.Component.{reconcile_component}
use pluma_opeartor.Controller.Delete.{
  CtrlResult, finished, retry_after, uninstall_message, reconcile_delete,
}

-- `desiredComponents`
unfoldable pub desired_components : List HelmComponent → Dict HelmComponent → Dict HelmComponent
desired_components [] desired = desired
desired_components (component ∷ components) desired =
    desired_components components (Dict.insert component.name component desired)

-- `!exists && existingStatus.Name != ""`
unfoldable pub is_removed : Dict HelmComponent → HelmComponentStatus → Bool
is_removed desired existing =
    not (is_some (Dict.lookup existing.name desired)) && not (existing.name == "")

module _ (c : Cluster) where
  -- The status that reports a failed uninstall.
  abbrev pub uninstall_failure : HelmComponentStatus → GoError → HelmComponentStatus
  uninstall_failure existing e = record existing {
    status = c.status_failed;
    message = uninstall_message existing.name e;
  }

  unfoldable pub ensure_finalizer : HelmApp → Action c.World (Option GoError × HelmApp)
  unfolding ◌>>=◌
  ensure_finalizer app =
      if c.contains_finalizer app.meta.finalizers helm_app_finalizer then pure (none, app) else (do
        let more = c.add_finalizer app.meta.finalizers helm_app_finalizer
        call (c.update (record app { meta = record app.meta { finalizers = more } })))

  -- "Process each component": an error is logged, and the status kept.
  unfoldable pub reconcile_components :
      HelmApp → c.Config → List HelmComponent → Action c.World (List HelmComponentStatus)
  unfolding ◌>>=◌
  reconcile_components app cfg [] = pure []
  reconcile_components app cfg (component ∷ components) = do
    (status, e) ← reconcile_component c app component cfg
    statuses ← reconcile_components app cfg components
    pure (status ∷ statuses)

  -- "Uninstall components that are no longer in the spec": the statuses of those that stay.
  unfoldable pub uninstall_removed :
      c.Config
      → Dict HelmComponent
      → List HelmComponentStatus
      → Action c.World (List HelmComponentStatus)
  unfolding ◌>>=◌
  uninstall_removed cfg desired [] = pure []
  uninstall_removed cfg desired (existing ∷ others) =
      let rest = uninstall_removed cfg desired others in
      if is_removed desired existing
      then (do
        e ← uninstall_component c cfg existing.name
        statuses ← rest
        pure (elim e [
          | none ↦ statuses
          | some failure ↦ uninstall_failure existing failure ∷ statuses
        ]))
      else rest

  -- `helmApp.Status.Components`, where the status may be nil
  abbrev pub reported : Option HelmAppStatus → List HelmComponentStatus
  reported none = []
  reported (some status) = status.components

  -- The status is written last, and a failed app comes back after `failedAfter`.
  publish : HelmApp → List HelmComponentStatus → Action c.World (CtrlResult × Option GoError)
  publish app statuses = do
    let phase = calculate_overall_phase c app statuses
    (e, app') ← call (
        c.update_status
          (record app { status = some (record { phase = phase; components = statuses }) }))
    if_error e
        (λ failure. pure (
          retry_after server_failed_after,
          some (wrap "failed to update HelmApp status: " failure),
        ))
        (pure (elim phase [ failed ↦ (retry_after failed_after, none) | _ ↦ (finished, none) ]))

  -- From the initialised configuration on.
  apply_spec : HelmApp → c.Config → Action c.World (CtrlResult × Option GoError)
  apply_spec app cfg = elim app.spec [
    | none ↦ panic
    | some spec ↦ do
      statuses ← reconcile_components app cfg spec.components
      failures ← uninstall_removed cfg (desired_components spec.components []) (reported app.status)
      publish app (statuses ++ failures)
  ]

  -- Behind the finalizer.
  configure_spec : HelmApp → Action c.World (CtrlResult × Option GoError)
  configure_spec app = do
    r ← new_action_configuration c
    if_err r
        (λ e.
          pure
            (retry_after server_failed_after, some (errorf "failed to new Helm action config: " e)))
        (λ cfg. do
          (e, cfg') ← call (c.init cfg app.meta.namespace)
          if_error e
              (λ failure. pure (
                retry_after server_failed_after,
                some (wrap "failed to initialize Helm action config: " failure),
              ))
              (apply_spec app cfg'))

  reconcile_spec : HelmApp → Action c.World (CtrlResult × Option GoError)
  reconcile_spec app = do
    (e, app') ← ensure_finalizer app
    if_error e (λ failure. pure (retry_after server_failed_after, some failure))
        (configure_spec app')

  unfoldable pub reconcile : String → String → Action c.World (CtrlResult × Option GoError)
  unfolding ensure_finalizer publish apply_spec configure_spec reconcile_spec ◌>>=◌
  reconcile namespace name = do
    r ← call (c.get namespace name)
    if_err r (λ e. pure (finished, c.ignore_not_found e))
        (λ app.
          if not (c.is_zero app.meta.deletion_timestamp)
          then reconcile_delete c app
          else reconcile_spec app)
