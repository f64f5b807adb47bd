-- ===== src/Controller/Delete.antt =====
-- `reconcileDelete`: the releases of a deleted HelmApp are uninstalled, the last component first.
pub mod Panic
pub mod Loop
pub mod Sweep
pub mod Safety
pub mod Retries
pub mod Spares
use pluma_opeartor.Base.{
  ℕ, zero, suc, String, ◌<>◌, Bool, true, false, ◌==◌, Option, none, some, List, [], ◌∷◌, ◌++◌,
  get_elem?, set, take, drop, length, if◌then◌else◌,
}
use pluma_opeartor.Constants.{helm_app_finalizer, server_failed_after}
use pluma_opeartor.Effects.{
  GoError, Result, ok, err, Action, pure, panic, call, ◌>>=◌, errorf, wrap, if_error, if_err,
}
use pluma_opeartor.Api.{HelmApp, HelmAppStatus, HelmComponentStatus}
use pluma_opeartor.Cluster.{Cluster}
use pluma_opeartor.Controller.Phase.{calculate_overall_phase}
use pluma_opeartor.Controller.Uninstall.{new_action_configuration, uninstall_component}

-- controller-runtime's `Result`, with the delay in nanoseconds.
pub record CtrlResult : Type 0 where
  pub requeue : Bool
  pub requeue_after : ℕ

abbrev pub finished : CtrlResult
finished = record { requeue = false; requeue_after = 0 }

abbrev pub retry_after : ℕ → CtrlResult
retry_after delay = record { requeue = false; requeue_after = delay }

abbrev pub retry : CtrlResult
retry = record { requeue = true; requeue_after = 0 }

-- The message that a failed uninstall leaves.
abbrev pub uninstall_message : String → GoError → String
uninstall_message name e = "uninstall " <> name <> " error: " <> e.message

module _ (c : Cluster) where
  -- The body of the loop at one component: its new status, and whether it is cleaned up.
  unfoldable pub delete_one :
      c.Config → HelmComponentStatus → Action c.World (HelmComponentStatus × Bool)
  unfolding ◌>>=◌
  delete_one cfg component = if component.name == "" then pure (component, true) else (do
    e ← uninstall_component c cfg component.name
    pure (elim e [
      | none ↦ (component, true)
      | some failure ↦ (
        record component {
          status = c.status_failed;
          message = uninstall_message component.name failure;
        },
        false,
      )
    ]))

  -- The loop for the indices below `i`, downwards, over the slice `cs`.
  unfoldable pub delete_loop :
      c.Config
      → ℕ
      → List HelmComponentStatus
      → Bool
      → Action c.World (List HelmComponentStatus × Bool)
  unfolding ◌>>=◌
  delete_loop cfg zero cs all = pure (cs, all)
  delete_loop cfg (suc i) cs all = elim (get_elem? cs i) [
    | none ↦ panic
    | some component ↦ do
      (component', clean) ← delete_one cfg component
      let cs' = set cs i component'
      delete_loop cfg i (if clean then take i cs' ++ drop (suc i) cs' else cs')
          (if clean then all else false)
  ]

  -- The finalizer is taken off only if all is clean.
  release_app : HelmApp → Bool → Action c.World (CtrlResult × Option GoError)
  release_app app false = pure (retry, none)
  release_app app true = do
    let kept = c.remove_finalizer app.meta.finalizers helm_app_finalizer
    (e, app') ← call (c.update (record app { meta = record app.meta { finalizers = kept } }))
    if_error e (λ failure. pure (retry_after server_failed_after, some failure))
        (pure (finished, none))

  -- The part behind the loop. A nil status is dereferenced.
  finish_delete : HelmApp → Bool → Action c.World (CtrlResult × Option GoError)
  finish_delete app all = elim app.status [
    | none ↦ panic
    | some status ↦ do
      let phase = calculate_overall_phase c app status.components
      (e, app') ←
          call (c.update_status (record app { status = some (record status { phase = phase }) }))
      if_error e
          (λ failure. pure (
            retry_after server_failed_after,
            some (wrap "failed to update HelmApp status: " failure),
          ))
          (release_app app' all)
  ]

  -- `if helmApp.Status != nil && len(helmApp.Status.Components) > 0 { … }`
  delete_components : c.Config → HelmApp → Action c.World (HelmApp × Bool)
  delete_components cfg app = elim app.status [
    | none ↦ pure (app, true)
    | some status ↦ do
      (cs, all) ← delete_loop cfg (length status.components) status.components true
      pure (record app { status = some (record status { components = cs }) }, all)
  ]

  -- From the initialised configuration on.
  delete_with : c.Config → HelmApp → Action c.World (CtrlResult × Option GoError)
  delete_with cfg app = do (app', all) ← delete_components cfg app; finish_delete app' all

  unfoldable pub reconcile_delete : HelmApp → Action c.World (CtrlResult × Option GoError)
  unfolding delete_with delete_components finish_delete release_app ◌>>=◌
  reconcile_delete app = do
    r ← new_action_configuration c
    if_err r
        (λ e.
          pure
            (retry_after server_failed_after, some (errorf "failed to new Helm action config: " e)))
        (λ cfg. do
          (e, cfg') ← call (c.init cfg app.meta.namespace)
          if_error e
              (λ failure. pure (
                retry_after server_failed_after,
                some (wrap "failed to initialize Helm action config: " failure),
              ))
              (delete_with cfg' app))
