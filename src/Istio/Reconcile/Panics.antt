-- ===== src/Istio/Reconcile/Panics.antt =====
-- When a reconcile of an IstioOperator panics.
use pluma_opeartor.Base.{
  String, ◌≡◌, ◌↔◌, refl, Bool, true, not, ◌==◌, ◌&&◌, Option, none, some, Bool-cases, inl, inr,
  if◌then◌else◌,
}
use pluma_opeartor.Constants.{iop_finalizer}
use pluma_opeartor.Effects.{
  GoError, Result, ok, err, Outcome, done, panicked, continue, Action, pure, call, wrap, ◌>>=◌,
  is_api_not_found, if_error, if_err, Returns,
}
use pluma_opeartor.Effects.Total.{Total, total_rules, Total-bind, Total-call}
use pluma_opeartor.Api.{HelmApp}
use pluma_opeartor.Istio.Step.{Step, value, failure, crash}
use pluma_opeartor.Istio.Resource.{IstioOperator, Library}
use pluma_opeartor.Istio.Convert.{convert_iop_to_helm_app}
use pluma_opeartor.Istio.Reconcile.{
  Cluster, is_managed, update_existing, create_missing, create_or_update_helm_app, delete_existing,
  remove_helm_app, reconcile_delete, ensure_finalizer, apply_conversion, reconcile_spec, reconcile,
}

returned_not_panicked :
    {W A : Type 0} (P : A → W → Type 0) (r : Outcome A × W) → Returns r P → r.0 ≡ panicked → ⊥
returned_not_panicked P (done a, w) h e = cc
returned_not_panicked P (panicked, w) h e = h

done_not_panicked : {A : Type 0} {a : A} → done a ≡ panicked → ⊥
done_not_panicked e = cc

Total-not_panicked : {W A : Type 0} (m : Action W A) → Total m → (w : W) → (m w).0 ≡ panicked → ⊥
Total-not_panicked m t w e = returned_not_panicked _ (m w) (t.at w) e

module _ (c : Cluster) where
  update_if-Total :
      (existing app : HelmApp) (same : Bool)
      → Total (
          if is_managed existing && not same
          then (call (c.update_app (record existing { spec = app.spec })) >>= λ e.
              if_error e (λ x. pure (some (wrap "failed to update HelmApp: " x))) (pure none))
          else pure none)
  update_if-Total existing app same = elim (Bool-cases (is_managed existing && not same)) [
    | inl e ↦ rw e (search total_rules)
    | inr e ↦ rw e (search total_rules)
  ]

  update_existing-Total : (existing app : HelmApp) → Total (update_existing c existing app)
  unfolding update_existing
  update_existing-Total existing app =
      Total-bind (call (λ w. (c.same_spec existing.spec app.spec w, w))) _ (Total-call _)
        (update_if-Total existing app)

  create_missing-Total : (app : HelmApp) (e : GoError) → Total (create_missing c app e)
  unfolding create_missing
  create_missing-Total app e = elim (Bool-cases (is_api_not_found e)) [
    | inl b ↦ rw (b, create_missing) (search total_rules)
    | inr b ↦ rw (b, create_missing) (search total_rules)
  ]

  create_or_update-Total : (app : HelmApp) → Total (create_or_update_helm_app c app)
  unfolding create_or_update_helm_app
  create_or_update-Total app = search (total_rules, update_existing-Total, create_missing-Total)

  delete_existing-Total : (iop : IstioOperator) (app : HelmApp) → Total (delete_existing c iop app)
  unfolding delete_existing
  delete_existing-Total iop app =
      elim (Bool-cases (app.meta.name == iop.meta.name && is_managed app)) [
        | inl b ↦ rw (b, delete_existing) (search total_rules)
        | inr b ↦ rw (b, delete_existing) (search total_rules)
      ]

  not_found_or_error-Total :
      (e x : GoError)
      → Total (if is_api_not_found e then pure {W = c.World} none else pure (some x))
  not_found_or_error-Total e x = elim (Bool-cases (is_api_not_found e)) [
    | inl b ↦ rw b (search total_rules)
    | inr b ↦ rw b (search total_rules)
  ]

  remove_helm_app-Total : (iop : IstioOperator) → Total (remove_helm_app c iop)
  unfolding remove_helm_app
  remove_helm_app-Total iop = search (total_rules, delete_existing-Total, not_found_or_error-Total)

  reconcile_delete-Total : (iop : IstioOperator) → Total (reconcile_delete c iop)
  unfolding reconcile_delete
  reconcile_delete-Total iop = search (total_rules, remove_helm_app-Total)

  module _ (lib : Library) (dir : String) where
    -- The finalizer is on, and the conversion of what the server then has panics.
    abbrev pub ConversionCrashes : IstioOperator → c.World → Type 0
    ConversionCrashes iop u =
        (iop' : IstioOperator) × (v : c.World) × (ensure_finalizer c iop u ≡ (done (none, iop'), v))
        × (convert_iop_to_helm_app lib dir iop' ≡ crash)

    apply_conversion-crash :
        (s : Step HelmApp) (w : c.World) → (apply_conversion c lib dir s w).0 ≡ panicked → s ≡ crash
    unfolding apply_conversion pure
    apply_conversion-crash (value app) w e =
        absurd
          (Total-not_panicked (create_or_update_helm_app c app) (create_or_update-Total app) w e)
    apply_conversion-crash (failure x) w e = cc
    apply_conversion-crash crash w e = refl

    ensure_finalizer-Total : (iop : IstioOperator) → Total (ensure_finalizer c iop)
    unfolding ensure_finalizer
    ensure_finalizer-Total iop =
        elim (Bool-cases (c.contains_finalizer iop.meta.finalizers iop_finalizer)) [
          | inl b ↦ rw (b, ensure_finalizer) (search total_rules)
          | inr b ↦ rw (b, ensure_finalizer) (search total_rules)
        ]

    abbrev after_finalizer : Option GoError × IstioOperator → Action c.World (Option GoError)
    after_finalizer (e, iop') =
        if_error e (λ x. pure (some x))
          (apply_conversion c lib dir (convert_iop_to_helm_app lib dir iop'))

    after_finalizer-crash :
        (iop : IstioOperator) (u : c.World) (r : Outcome (Option GoError × IstioOperator) × c.World)
        → ensure_finalizer c iop u ≡ r
        → Returns r (λ a v. Unit {0})
        → (continue r.0 after_finalizer r.1).0 ≡ panicked
        → ConversionCrashes iop u
    unfolding if_error pure
    after_finalizer-crash iop u (done (none, iop'), v) e t h =
        (iop', v, e, apply_conversion-crash _ v h)
    after_finalizer-crash iop u (done (some x, iop'), v) e t h = absurd cc
    after_finalizer-crash iop u (panicked, v) e t h = absurd t

    reconcile_spec-crash :
        (iop : IstioOperator) (u : c.World)
        → (reconcile_spec c lib dir iop u).0 ≡ panicked
        → ConversionCrashes iop u
    unfolding reconcile_spec ◌>>=◌
    reconcile_spec-crash iop u h =
        after_finalizer-crash iop u (ensure_finalizer c iop u) refl
          ((ensure_finalizer-Total iop).at u) h

    crash-reconcile_spec :
        (iop : IstioOperator) (u : c.World)
        → ConversionCrashes iop u
        → (reconcile_spec c lib dir iop u).0 ≡ panicked
    unfolding reconcile_spec if_error apply_conversion ◌>>=◌
    crash-reconcile_spec iop u (iop', v, e, f) = rw (e, if_error, f, apply_conversion) refl

    -- What makes a reconcile panic.
    abbrev pub ReadsCrashing : String → String → c.World → Type 0
    ReadsCrashing ns n w =
        (iop : IstioOperator) × ((c.get_iop ns n w).0 ≡ ok iop)
        × (c.is_zero iop.meta.deletion_timestamp ≡ true)
        × ConversionCrashes iop (c.get_iop ns n w).1

    reconcile-crash :
        (ns n : String) (w : c.World) (r : Result IstioOperator)
        → (c.get_iop ns n w).0 ≡ r
        → (reconcile c lib dir ns n w).0 ≡ panicked
        → ReadsCrashing ns n w
    unfolding reconcile if_err ◌>>=◌
    reconcile-crash ns n w (err x) e h = absurd (done_not_panicked (rw (e, if_err) at h))
    reconcile-crash ns n w (ok iop) e h =
        let read = rw (e, if_err) at h in
        elim (Bool-cases (c.is_zero iop.meta.deletion_timestamp)) [
          | inl z ↦ (iop, e, z, reconcile_spec-crash iop _ (rw z at read))
          | inr z ↦ absurd (
              Total-not_panicked (reconcile_delete c iop) (reconcile_delete-Total iop) _
                (rw z at read))
        ]

    crash-reconcile :
        (ns n : String) (w : c.World)
        → ReadsCrashing ns n w
        → (reconcile c lib dir ns n w).0 ≡ panicked
    unfolding reconcile if_err ◌>>=◌
    crash-reconcile ns n w (iop, e, z, k) = rw (e, if_err, z) (crash-reconcile_spec iop _ k)

    -- A reconcile of an IstioOperator panics exactly if it reads one that is not marked for deletion,
    -- its finalizer is on or is put on without an error, and the conversion of what the server then
    -- holds panics. So in all other cases it returns, whatever the calls answer.
    pub reconcile_panics :
        (ns n : String) (w : c.World)
        → ((reconcile c lib dir ns n w).0 ≡ panicked) ↔ ReadsCrashing ns n w
    reconcile_panics ns n w =
        (reconcile-crash ns n w (c.get_iop ns n w).0 refl, crash-reconcile ns n w)
