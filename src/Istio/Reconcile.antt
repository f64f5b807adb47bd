-- ===== src/Istio/Reconcile.antt =====
-- `Reconcile`, `reconcileDelete` and `createOrUpdateHelmApp` of the IstioOperator controller.
pub mod Foreign
pub mod Deletion
pub mod Panics
pub mod Mesh
use pluma_opeartor.Base.{
  ℕ, String, Bool, true, false, not, ◌==◌, ◌&&◌, Option, none, some, List, [], ◌∷◌, if◌then◌else◌,
}
use pluma_opeartor.Base.Dict
use pluma_opeartor.Base.Dict.{Dict}
use pluma_opeartor.Constants.{iop_finalizer, managed_label, managed_label_value}
use pluma_opeartor.Effects.{
  GoError, Result, ok, err, Action, pure, panic, call, ◌>>=◌, wrap, is_api_not_found, if_error,
  if_err,
}
use pluma_opeartor.Api.{HelmApp, HelmAppSpec}
use pluma_opeartor.Istio.Step.{Step, value, failure, crash}
use pluma_opeartor.Istio.Resource.{IstioOperator, Library}
use pluma_opeartor.Istio.Convert.{convert_iop_to_helm_app}

-- What the controller calls in other packages: the Kubernetes client and small helpers.
pub record Cluster : Type 1 where
  pub World : Type 0
  pub is_zero : Option ℕ → Bool
  pub contains_finalizer : List String → String → Bool
  pub add_finalizer : List String → String → List String
  pub remove_finalizer : List String → String → List String
  pub ignore_not_found : GoError → Option GoError
  -- `reflect.DeepEqual` on two specs. It also tells a nil slice or map from an empty one, and sees the
  -- bookkeeping fields of the generated messages, none of which a `HelmAppSpec` has: what it says of
  -- two specs is up to the world that holds them.
  pub same_spec : Option HelmAppSpec → Option HelmAppSpec → World → Bool
  pub get_iop : String → String → World → Result IstioOperator × World
  pub update_iop : IstioOperator → World → (Option GoError × IstioOperator) × World
  pub get_app : String → String → World → Result HelmApp × World
  pub create_app : HelmApp → World → Option GoError × World
  pub update_app : HelmApp → World → Option GoError × World
  pub delete_app : HelmApp → World → Option GoError × World

-- The label by which the operator knows its own HelmApps.
unfoldable pub is_managed : HelmApp → Bool
unfolding Dict.lookup
is_managed app = elim app.meta.labels [
  | none ↦ false
  | some labels ↦ elim (Dict.lookup managed_label labels) [
    | none ↦ false
    | some label ↦ label == managed_label_value
  ]
]

module _ (c : Cluster) where
  -- The HelmApp exists: it is updated if it is managed and its spec differs.
  unfoldable pub update_existing : HelmApp → HelmApp → Action c.World (Option GoError)
  update_existing existing app = do
    same ← call (λ w. (c.same_spec existing.spec app.spec w, w))
    if is_managed existing && not same
        then (do
          e ← call (c.update_app (record existing { spec = app.spec }))
          if_error e (λ x. pure (some (wrap "failed to update HelmApp: " x))) (pure none))
        else pure none

  unfoldable pub create_missing : HelmApp → GoError → Action c.World (Option GoError)
  create_missing app e =
      if is_api_not_found e
      then (do
        e' ← call (c.create_app app)
        if_error e' (λ x. pure (some (wrap "failed to create HelmApp: " x))) (pure none))
      else pure (some (wrap "failed to get HelmApp: " e))

  unfoldable pub create_or_update_helm_app : HelmApp → Action c.World (Option GoError)
  create_or_update_helm_app app = do
    r ← call (c.get_app app.meta.namespace app.meta.name)
    if_err r (create_missing app) (λ existing. update_existing existing app)

  -- The HelmApp is deleted only if it is the one that the operator made.
  unfoldable pub delete_existing : IstioOperator → HelmApp → Action c.World (Option GoError)
  delete_existing iop app =
      if app.meta.name == iop.meta.name && is_managed app
      then (do
        e ← call (c.delete_app app)
        if_error e (λ x. pure (some (wrap "failed to delete HelmApp: " x))) (pure none))
      else pure none

  -- `nil` where the finalizer may be taken off.
  unfoldable pub remove_helm_app : IstioOperator → Action c.World (Option GoError)
  remove_helm_app iop = do
    r ← call (c.get_app iop.meta.namespace iop.meta.name)
    if_err r
        (λ e.
          if is_api_not_found e then pure none else pure (some (wrap "failed to get HelmApp: " e)))
        (delete_existing iop)

  unfoldable pub reconcile_delete : IstioOperator → Action c.World (Option GoError)
  reconcile_delete iop = do
    e ← remove_helm_app iop
    if_error e (λ x. pure (some x))
        (do
          let kept = c.remove_finalizer iop.meta.finalizers iop_finalizer
          (e', iop') ←
              call (c.update_iop (record iop { meta = record iop.meta { finalizers = kept } }))
          pure e')

  unfoldable pub ensure_finalizer : IstioOperator → Action c.World (Option GoError × IstioOperator)
  ensure_finalizer iop =
      if c.contains_finalizer iop.meta.finalizers iop_finalizer then pure (none, iop) else (do
        let more = c.add_finalizer iop.meta.finalizers iop_finalizer
        call (c.update_iop (record iop { meta = record iop.meta { finalizers = more } })))

  module _ (lib : Library) (profiles_dir : String) where
    unfoldable pub apply_conversion : Step HelmApp → Action c.World (Option GoError)
    apply_conversion (value app) = create_or_update_helm_app app
    apply_conversion (failure e) = pure (some e)
    apply_conversion crash = panic

    unfoldable pub reconcile_spec : IstioOperator → Action c.World (Option GoError)
    reconcile_spec iop = do
      (e, iop') ← ensure_finalizer iop
      if_error e (λ x. pure (some x))
          (apply_conversion (convert_iop_to_helm_app lib profiles_dir iop'))

    -- The result that goes with the error is always the empty one.
    unfoldable pub reconcile : String → String → Action c.World (Option GoError)
    reconcile namespace name = do
      r ← call (c.get_iop namespace name)
      if_err r (λ e. pure (c.ignore_not_found e))
          (λ iop.
            if not (c.is_zero iop.meta.deletion_timestamp)
            then reconcile_delete iop
            else reconcile_spec iop)
