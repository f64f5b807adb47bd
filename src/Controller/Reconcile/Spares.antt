-- ===== src/Controller/Reconcile/Spares.antt =====
-- A reconcile does not uninstall what its status does not report, nor, but on deletion, the components of
-- its own spec.
use pluma_opeartor.Base.{
  refl, String, ◌≡◌, ◌≢◌, ap, ◌∙◌, true, Option, none, some, List, [], ◌∷◌, arith, Bool-cases,
  Option-cases, subst, subst₂, sym, not, if◌then◌else◌, ◌⊎◌, inl, inr,
}
use pluma_opeartor.Effects.{
  GoError, Result, ok, err, pure, call, ◌>>=◌, if_error, if_err, Keeps, keeps_rules, Keeps-bind,
  Keeps-panic, Keeps-pure, Keeps-if_err, Keeps-if_error, Keeps-call,
}
use pluma_opeartor.Api.{HelmApp, HelmAppSpec, HelmAppStatus, HelmComponent, HelmComponentStatus}
use pluma_opeartor.Cluster.{Cluster}
use pluma_opeartor.Controller.Uninstall.{new_action_configuration}
use pluma_opeartor.Controller.Component.{reconcile_component}
use pluma_opeartor.Controller.Component.Untouched.{reconcile_component-Keeps}
use pluma_opeartor.Controller.Spared.{
  SparesLaws, IsUnreported, HasNoReport, uninstall_component-Keeps, new_action_configuration-Keeps,
}
use pluma_opeartor.Controller.Delete.Spares.{reconcile_delete-Keeps}
use pluma_opeartor.Controller.Delete.{finished, reconcile_delete}
use pluma_opeartor.Constants.{helm_app_finalizer, server_failed_after}
use pluma_opeartor.Controller.Delete.{retry_after}
use pluma_opeartor.Controller.Reconcile.{
  ensure_finalizer, desired_components, is_removed, reconcile_components, uninstall_removed,
  reported, publish, apply_spec, configure_spec, reconcile_spec, reconcile,
}
use pluma_opeartor.Controller.Reconcile.Removed.{mentions, is_removed_lem}

-- The name of a removed component is not one of the spec's.
removed_other :
    (components : List HelmComponent) (s : HelmComponentStatus) {name : String}
    → mentions components name ≡ true
    → is_removed (desired_components components []) s ≡ true
    → s.name ≢ name
removed_other components s {name} m r e =
    let named : mentions components s.name ≡ true = ap (mentions components) e ∙ m in
    absurd (ground (arith, is_removed_lem components s))

spared_parts :
    (components : List HelmComponent) (s : HelmComponentStatus) {name : String}
    (statuses : List HelmComponentStatus)
    → IsUnreported name (s ∷ statuses) ⊎ (mentions components name ≡ true)
    → (is_removed (desired_components components []) s ≡ true → s.name ≢ name)
      × (IsUnreported name statuses ⊎ (mentions components name ≡ true))
spared_parts components s statuses (inl (h, hs)) = ((λ r. h), inl hs)
spared_parts components s statuses (inr m) = (removed_other components s m, inr m)

-- What protects a name from the reconcile of a HelmApp: its spec mentions it, and it is not marked for
-- deletion, or its status reports no component of that name.
abbrev pub Desires : Option HelmAppSpec → String → Type 0
Desires none name = ⊥
Desires (some spec) name = mentions spec.components name ≡ true

abbrev pub Protects : Cluster → String → HelmApp → Type 0
Protects c name app =
    HasNoReport name app.status
    ⊎ ((c.is_zero app.meta.deletion_timestamp ≡ true) × Desires app.spec name)

module _ (c : Cluster) (name : String) {P : c.World → Type 0} (L : SparesLaws c name P) where
  open L use {get-P, update-P, update_status-P, init-P}

  -- As `Protects`, without the mark.
  abbrev Spares : Option HelmAppSpec → Option HelmAppStatus → Type 0
  Spares spec status = HasNoReport name status ⊎ Desires spec name

  uninstall_removed-Keeps :
      (cfg : c.Config) (components : List HelmComponent) (statuses : List HelmComponentStatus)
      → IsUnreported name statuses ⊎ (mentions components name ≡ true)
      → Keeps P (uninstall_removed c cfg (desired_components components []) statuses)
  unfolding uninstall_removed
  uninstall_removed-Keeps cfg components [] m = search keeps_rules
  uninstall_removed-Keeps cfg components (s ∷ statuses) m =
      let (other, m') = spared_parts components s statuses m in
      let rest : Keeps P (uninstall_removed c cfg (desired_components components []) statuses) =
        uninstall_removed-Keeps cfg components statuses m' in
      elim (Bool-cases (is_removed (desired_components components []) s)) [
        | inl e ↦
            rw (e, uninstall_removed)
              (search (keeps_rules, rest, uninstall_component-Keeps c name L cfg s.name (other e)))
        | inr e ↦ rw (e, uninstall_removed) rest
      ]

  reconcile_components-Keeps :
      (app : HelmApp) (cfg : c.Config) (components : List HelmComponent)
      → Keeps P (reconcile_components c app cfg components)
  unfolding reconcile_components
  reconcile_components-Keeps app cfg [] = search keeps_rules
  reconcile_components-Keeps app cfg (component ∷ components) =
      let rest : Keeps P (reconcile_components c app cfg components) =
        reconcile_components-Keeps app cfg components in
      Keeps-bind (reconcile_component c app component cfg) _
        (reconcile_component-Keeps c L.component app component cfg)
        (λ (status, e). search (keeps_rules, rest))

  publish-Keeps :
      (app : HelmApp) (statuses : List HelmComponentStatus) → Keeps P (publish c app statuses)
  unfolding publish
  publish-Keeps app statuses = search (keeps_rules, update_status-P)

  reported-IsUnreported :
      (spec : HelmAppSpec) (status : Option HelmAppStatus)
      → Spares (some spec) status
      → IsUnreported name (reported c status) ⊎ (mentions spec.components name ≡ true)
  reported-IsUnreported spec none h = inl tt
  reported-IsUnreported spec (some status) h = h

  apply_spec-Keeps :
      (app : HelmApp) (cfg : c.Config) → Spares app.spec app.status → Keeps P (apply_spec c app cfg)
  unfolding apply_spec
  apply_spec-Keeps app cfg h = elim (Option-cases app.spec) [
    | inl e ↦ rw (e, apply_spec) Keeps-panic
    | inr (spec, e) ↦
        rw (e, apply_spec)
          (Keeps-bind (reconcile_components c app cfg spec.components) _
            (reconcile_components-Keeps app cfg spec.components)
            (λ statuses.
              Keeps-bind (uninstall_removed c cfg _ (reported c app.status)) _
                (uninstall_removed-Keeps cfg spec.components (reported c app.status)
                  (reported-IsUnreported spec app.status (subst (λ s. Spares s app.status) e h)))
                (λ failures. publish-Keeps app _)))
  ]

  configure_spec-Keeps :
      (app : HelmApp) → Spares app.spec app.status → Keeps P (configure_spec c app)
  unfolding configure_spec
  configure_spec-Keeps app h =
      Keeps-bind (new_action_configuration c) _ (new_action_configuration-Keeps c name L) (λ r.
        Keeps-if_err r _ _ (λ e. Keeps-pure _)
          (λ cfg.
            Keeps-bind (call (c.init cfg app.meta.namespace)) _
              (Keeps-call _ (init-P cfg app.meta.namespace))
              (λ (e, cfg').
                Keeps-if_error e _ _ (λ failure. Keeps-pure _) (apply_spec-Keeps app cfg' h))))

  after_finalizer-Keeps :
      (x : Option GoError) (app : HelmApp)
      → (x ≡ none → Spares app.spec app.status)
      → Keeps P (
          if_error x
            (λ failure. pure (retry_after server_failed_after, some failure))
            (configure_spec c app))
  unfolding if_error
  after_finalizer-Keeps none app h = configure_spec-Keeps app (h refl)
  after_finalizer-Keeps (some x) app h = Keeps-pure _

  -- `app` was just read.
  reconcile_spec-keeps :
      (ns n : String) (app : HelmApp) (w : c.World)
      → (c.get ns n w).0 ≡ ok app
      → Spares app.spec app.status
      → P (c.get ns n w).1
      → P (reconcile_spec c app (c.get ns n w).1).1
  unfolding reconcile_spec ensure_finalizer ◌>>=◌
  reconcile_spec-keeps ns n app w g h p =
      elim (Bool-cases (c.contains_finalizer app.meta.finalizers helm_app_finalizer)) [
        | inl b ↦ rw (b, ensure_finalizer) ((after_finalizer-Keeps none app (λ e. h)).at _ p)
        | inr b ↦
            rw (b, ensure_finalizer)
              ((after_finalizer-Keeps _ _ (λ e.
                  subst₂ Spares (sym (L.update-spec ns n app _ w g e))
                    (sym (L.update-status ns n app _ w g e)) h)).at
                _ (update-P _ _ p))
      ]

  -- What a reconcile reads protects the name: an error does.
  abbrev pub ReadsProtected : Result HelmApp → Type 0
  ReadsProtected (err e) = Unit
  ReadsProtected (ok app) = Protects c name app

  read-keeps :
      (ns n : String) (r : Result HelmApp) (w : c.World)
      → (c.get ns n w).0 ≡ r
      → ReadsProtected r
      → P (c.get ns n w).1
      → P
          (if_err r
            (λ e. pure (finished, c.ignore_not_found e))
            (λ app.
              if not (c.is_zero app.meta.deletion_timestamp)
              then reconcile_delete c app
              else reconcile_spec c app)
            (c.get ns n w).1).1
  unfolding if_err pure
  read-keeps ns n (err e) w g h p = p
  read-keeps ns n (ok app) w g h p = elim (Bool-cases (c.is_zero app.meta.deletion_timestamp)) [
    | inl z ↦
        rw z (reconcile_spec-keeps ns n app w g (elim h [ inl u ↦ inl u | inr (z', d) ↦ inr d ]) p)
    | inr z ↦ rw z (
        (reconcile_delete-Keeps c name L app (elim h [ inl u ↦ u | inr (z', d) ↦ absurd cc ])).at _
          p)
  ]

  -- Suppose that every call keeps a property of the world, such as that a release of a given name is
  -- installed, but for the uninstall of that name, and that an update of the metadata of a HelmApp
  -- that was just read, if it succeeds, hands back the spec and the status that were read. Then a
  -- reconcile keeps the property too, whether it succeeds, fails or panics, if the status of the
  -- HelmApp that it reads reports no component of that name, or the HelmApp is not marked for
  -- deletion and its spec has a component of that name.
  pub reconcile-spares :
      (ns n : String) (w : c.World)
      → ReadsProtected (c.get ns n w).0
      → P w
      → P (reconcile c ns n w).1
  unfolding reconcile ◌>>=◌
  reconcile-spares ns n w h p = read-keeps ns n (c.get ns n w).0 w refl h (get-P ns n w p)
