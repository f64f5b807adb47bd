-- ===== src/Istio/Reconcile/Foreign.antt =====
-- The IstioOperator controller leaves alone every HelmApp that does not bear its label.
use pluma_opeartor.Base.{
  String, ◌≡◌, Bool, true, false, not, ◌==◌, ◌&&◌, none, some, arith, Bool-cases, inl, inr,
  if◌then◌else◌,
}
use pluma_opeartor.Effects.{
  GoError, Action, is_api_not_found, pure, call, ◌>>=◌, wrap, if_error, Keeps, keeps_rules,
  Keeps-pure, Keeps-bind, Keeps-call,
}
use pluma_opeartor.Api.{HelmApp}
use pluma_opeartor.Istio.Step.{Step, value, failure, crash}
use pluma_opeartor.Istio.Resource.{IstioOperator, Library}
use pluma_opeartor.Istio.Reconcile.{
  Cluster, is_managed, update_existing, create_missing, create_or_update_helm_app, delete_existing,
  remove_helm_app, reconcile_delete, ensure_finalizer, apply_conversion, reconcile_spec, reconcile,
}

-- A property of the HelmApps without the label: it outlives reads, updates of an IstioOperator, and
-- writes of HelmApps that bear the label.
pub record ForeignLaws (c : Cluster) (Foreign : c.World → Type 0) : Type 1 where
  pub get_iop-Foreign :
      (ns name : String) (w : c.World) → Foreign w → Foreign (c.get_iop ns name w).1
  pub update_iop-Foreign :
      (iop : IstioOperator) (w : c.World) → Foreign w → Foreign (c.update_iop iop w).1
  pub get_app-Foreign :
      (ns name : String) (w : c.World) → Foreign w → Foreign (c.get_app ns name w).1
  pub create_app-Foreign :
      (app : HelmApp) (w : c.World) → Foreign w → Foreign (c.create_app app w).1
  pub update_app-Foreign :
      (app : HelmApp)
      → is_managed app ≡ true
      → (w : c.World) → Foreign w
      → Foreign (c.update_app app w).1
  pub delete_app-Foreign :
      (app : HelmApp)
      → is_managed app ≡ true
      → (w : c.World) → Foreign w
      → Foreign (c.delete_app app w).1

managed_update :
    (existing app : HelmApp) (b : Bool)
    → (is_managed existing && b) ≡ true
    → is_managed (record existing { spec = app.spec }) ≡ true
unfolding is_managed
managed_update existing app b e = ground arith

module _ (c : Cluster) {Foreign : c.World → Type 0} (L : ForeignLaws c Foreign) where
  open L use {
    get_iop-Foreign, update_iop-Foreign, get_app-Foreign, create_app-Foreign, update_app-Foreign,
    delete_app-Foreign,
  }

  update_if-Keeps :
      (existing app : HelmApp) (same : Bool)
      → Keeps Foreign (
          if is_managed existing && not same
          then (call (c.update_app (record existing { spec = app.spec })) >>= λ e.
              if_error e (λ x. pure (some (wrap "failed to update HelmApp: " x))) (pure none))
          else pure none)
  update_if-Keeps existing app same = elim (Bool-cases (is_managed existing && not same)) [
    | inl e ↦ rw e (
        search (
          keeps_rules,
          update_app-Foreign (record existing { spec = app.spec })
              (managed_update existing app _ e),
        ))
    | inr e ↦ rw e (Keeps-pure none)
  ]

  update_existing-Keeps : (existing app : HelmApp) → Keeps Foreign (update_existing c existing app)
  unfolding update_existing
  update_existing-Keeps existing app =
      Keeps-bind (call (λ w. (c.same_spec existing.spec app.spec w, w))) _ (Keeps-call _ (λ w p. p))
        (update_if-Keeps existing app)

  create_missing-Keeps : (app : HelmApp) (e : GoError) → Keeps Foreign (create_missing c app e)
  unfolding create_missing
  create_missing-Keeps app e = elim (Bool-cases (is_api_not_found e)) [
    | inl b ↦ rw (b, create_missing) (search (keeps_rules, create_app-Foreign))
    | inr b ↦ rw (b, create_missing) (Keeps-pure _)
  ]

  create_or_update-Keeps : (app : HelmApp) → Keeps Foreign (create_or_update_helm_app c app)
  unfolding create_or_update_helm_app
  create_or_update-Keeps app =
      search (keeps_rules, get_app-Foreign, create_missing-Keeps, update_existing-Keeps)

  delete_existing-Keeps :
      (iop : IstioOperator) (app : HelmApp) → Keeps Foreign (delete_existing c iop app)
  unfolding delete_existing
  delete_existing-Keeps iop app =
      elim (Bool-cases (app.meta.name == iop.meta.name && is_managed app)) [
        | inl e ↦
            rw (e, delete_existing) (search (keeps_rules, delete_app-Foreign app (ground arith)))
        | inr e ↦ rw (e, delete_existing) (Keeps-pure none)
      ]

  Keeps-if :
      {A : Type 0} (b : Bool) (m n : Action c.World A)
      → Keeps Foreign m
      → Keeps Foreign n
      → Keeps Foreign (if b then m else n)
  Keeps-if true m n h k = h
  Keeps-if false m n h k = k

  remove_helm_app-Keeps : (iop : IstioOperator) → Keeps Foreign (remove_helm_app c iop)
  unfolding remove_helm_app
  remove_helm_app-Keeps iop = search (keeps_rules, Keeps-if, get_app-Foreign, delete_existing-Keeps)

  reconcile_delete-Keeps : (iop : IstioOperator) → Keeps Foreign (reconcile_delete c iop)
  unfolding reconcile_delete
  reconcile_delete-Keeps iop = search (keeps_rules, update_iop-Foreign, remove_helm_app-Keeps)

  ensure_finalizer-Keeps : (iop : IstioOperator) → Keeps Foreign (ensure_finalizer c iop)
  unfolding ensure_finalizer
  ensure_finalizer-Keeps iop = search (keeps_rules, Keeps-if, update_iop-Foreign)

  module _ (lib : Library) (dir : String) where
    apply_conversion-Keeps : (s : Step HelmApp) → Keeps Foreign (apply_conversion c lib dir s)
    unfolding apply_conversion
    apply_conversion-Keeps (value app) = create_or_update-Keeps app
    apply_conversion-Keeps (failure e) = search keeps_rules
    apply_conversion-Keeps crash = search keeps_rules

    reconcile_spec-Keeps : (iop : IstioOperator) → Keeps Foreign (reconcile_spec c lib dir iop)
    unfolding reconcile_spec
    reconcile_spec-Keeps iop = search (keeps_rules, ensure_finalizer-Keeps, apply_conversion-Keeps)

    reconcile-Keeps : (ns name : String) → Keeps Foreign (reconcile c lib dir ns name)
    unfolding reconcile
    reconcile-Keeps ns name =
        search
          (keeps_rules, Keeps-if, get_iop-Foreign, reconcile_delete-Keeps, reconcile_spec-Keeps)

    -- A property of the world that outlives reads, creations, updates of an IstioOperator, and the
    -- updates and deletions of HelmApps that bear the operator's label, and that holds before a
    -- reconcile of any IstioOperator, holds after it, whether the reconcile succeeds, fails or
    -- panics.
    pub reconcile-Foreign :
        (ns name : String) (w : c.World) → Foreign w → Foreign (reconcile c lib dir ns name w).1
    reconcile-Foreign ns name w h = (reconcile-Keeps ns name).at w h
