-- ===== src/Controller/Delete/Safety.antt =====
-- The finalizer of a deleted HelmApp and the releases of its components.
use pluma_opeartor.Base.{
  String, ◌≡◌, ◌≢◌, ◌⊎◌, inl, inr, refl, sym, Bool, true, false, Option, some, List, [], ◌∷◌, All,
  length, subst,
}
use pluma_opeartor.Effects.{
  GoError, pure, Returns, if_error-Returns, if_err-Returns, bind-Returns, ◌>>=◌,
}
use pluma_opeartor.Api.{HelmApp, HelmAppStatus, HelmComponentStatus}
use pluma_opeartor.Cluster.{Cluster}
use pluma_opeartor.Controller.Delete.{
  CtrlResult, delete_loop, delete_components, release_app, finish_delete, delete_with,
  reconcile_delete,
}
use pluma_opeartor.Controller.Uninstall.{new_action_configuration}
use pluma_opeartor.Controller.Delete.Sweep.{Laws, Cleaned, delete_loop-Cleaned}

module _ (c : Cluster) (L : Laws c) where
  module _ (ns : String) (cs : List HelmComponentStatus) where
    -- No component that has a name has a release.
    abbrev pub AllGone : c.World → Type 0
    AllGone w = All (λ s. s.name ≢ "" → ¬ L.Installed w ns s.name) cs

    -- The finalizer is still on, or every release is gone.
    abbrev IsSafe : CtrlResult × Option GoError → c.World → Type 0
    IsSafe r w = L.Finalized w ⊎ AllGone w

  AllGone-mono :
      (ns : String) (cs : List HelmComponentStatus) {v w : c.World}
      → ((m : String) → L.Installed v ns m → L.Installed w ns m)
      → AllGone ns cs w
      → AllGone ns cs v
  AllGone-mono ns [] h a = tt
  AllGone-mono ns (s ∷ cs) h a = (λ n i. a.0 n (h s.name i), AllGone-mono ns cs h a.1)

  module _ (ns : String) (cs : List HelmComponentStatus) where
    release_app-IsSafe :
        (app : HelmApp) (all : Bool) (v : c.World)
        → L.Finalized v
        → (all ≡ true → AllGone ns cs v)
        → Returns (release_app c app all v) (IsSafe ns cs)
    unfolding release_app ◌>>=◌
    release_app-IsSafe app false v f h = inl f
    release_app-IsSafe app true v f h =
        if_error-Returns (IsSafe ns cs) _ _ _ _
          (λ x e. inr (AllGone-mono ns cs (L.update-installs _ v ns) (h refl)))
          (λ e. inr (AllGone-mono ns cs (L.update-installs _ v ns) (h refl)))

    finish_delete-IsSafe :
        (app : HelmApp) (status : HelmAppStatus) (all : Bool) (v : c.World)
        → L.Finalized v
        → (all ≡ true → AllGone ns cs v)
        → Returns (finish_delete c (record app { status = some status }) all v) (IsSafe ns cs)
    unfolding finish_delete ◌>>=◌
    finish_delete-IsSafe app status all v f h =
        if_error-Returns (IsSafe ns cs) _ _ _ _ (λ x e. inl (L.update_status-Finalized _ v f))
          (λ e.
            release_app-IsSafe _ all _ (L.update_status-Finalized _ v f)
              (λ a. AllGone-mono ns cs (L.update_status-installs _ v ns) (h a)))

  module _ (app : HelmApp) (status : HelmAppStatus) where
    abbrev with_status : HelmAppStatus → HelmApp
    with_status s = record app { status = some s }

    -- What the loop leaves: a status, and the flag that every release is gone.
    record Emptied (r : HelmApp × Bool) (v : c.World) : Type 0 where
      left : HelmAppStatus
      is_left : r.0 ≡ with_status left
      finalized : L.Finalized v
      gone : r.1 ≡ true → AllGone app.meta.namespace status.components v

    delete_components-Emptied :
        (cfg : c.Config) (w : c.World)
        → L.IsConfig cfg app.meta.namespace
        → L.Finalized w
        → Returns (delete_components c cfg (with_status status) w) Emptied
    unfolding delete_components pure
    delete_components-Emptied cfg w k f =
        bind-Returns (λ r v. Cleaned c L cfg app.meta.namespace k status.components w r.1 v) Emptied
          (delete_loop c cfg (length status.components) status.components true) _ w
          (delete_loop-Cleaned c L cfg app.meta.namespace k status.components w)
          (λ (cs, all) v d. record {
            left = record status { components = cs };
            is_left = refl;
            finalized = d.shrinks.finalized f;
            gone = d.absent;
          })

    delete_with-IsSafe :
        (cfg : c.Config) (w : c.World)
        → L.IsConfig cfg app.meta.namespace
        → L.Finalized w
        → Returns
            (delete_with c cfg (with_status status) w)
            (IsSafe app.meta.namespace status.components)
    unfolding delete_with
    delete_with-IsSafe cfg w k f =
        bind-Returns Emptied (IsSafe app.meta.namespace status.components)
          (delete_components c cfg (with_status status)) _ w (delete_components-Emptied cfg w k f)
          (λ (app', all) v d. rw d.is_left (
            finish_delete-IsSafe app.meta.namespace status.components app d.left all v d.finalized
              d.gone))

    reconcile_delete-IsSafe :
        (w : c.World)
        → L.Finalized w
        → Returns
            (reconcile_delete c (with_status status) w)
            (IsSafe app.meta.namespace status.components)
    unfolding reconcile_delete new_action_configuration
    reconcile_delete-IsSafe w f =
        if_err-Returns (IsSafe app.meta.namespace status.components) _ _ _ _
          (λ x e. inl (L.registry-Finalized w f))
          (λ cfg e.
            if_error-Returns (IsSafe app.meta.namespace status.components) _ _ _ _
              (λ x e'. inl (L.init-Finalized cfg _ _ (L.registry-Finalized w f)))
              (λ e'.
                delete_with-IsSafe _ _ (L.init-IsConfig cfg _ _ e')
                  (L.init-Finalized cfg _ _ (L.registry-Finalized w f))))

  -- Given the laws of the Kubernetes client and of Helm, the deletion of a HelmApp that has a status
  -- returns in every world that bears the finalizer, and afterwards the finalizer is still on, or no release of a named component of the status is
  -- installed in its namespace.
  pub finalizer_guards_releases :
      (app : HelmApp) (status : HelmAppStatus) (w : c.World)
      → app.status ≡ some status
      → L.Finalized w
      → Returns
          (reconcile_delete c app w)
          (λ r v. L.Finalized v ⊎ AllGone app.meta.namespace status.components v)
  finalizer_guards_releases app status w e f =
      subst
        (λ o.
          Returns (reconcile_delete c (record app { status = o }) w)
            (IsSafe app.meta.namespace status.components))
        (sym e) (reconcile_delete-IsSafe app status w f)
