-- ===== src/Controller/Delete/Panic.antt =====
-- A HelmApp that is deleted before it was given a status.
use pluma_opeartor.Base.{String, ◌≡◌, refl, false, none}
use pluma_opeartor.Effects.{ok, panicked, panic, ◌>>=◌, if_error, if_err}
use pluma_opeartor.Api.{HelmApp}
use pluma_opeartor.Cluster.{Cluster}
use pluma_opeartor.Controller.Delete.{reconcile_delete}
use pluma_opeartor.Controller.Uninstall.{new_action_configuration}
use pluma_opeartor.Controller.Reconcile.{reconcile}

module _ (c : Cluster) (app : HelmApp) (client : c.Registry) where
  delete_panics :
      (w : c.World)
      → app.status ≡ none
      → (c.new_registry_client w).0 ≡ ok client
      → (c.init (c.configuration client) app.meta.namespace (c.new_registry_client w).1).0.0 ≡ none
      → reconcile_delete c app w ≡ (
        panicked,
        (c.init (c.configuration client) app.meta.namespace (c.new_registry_client w).1).1,
      )
  unfolding reconcile_delete new_action_configuration panic if_error if_err ◌>>=◌
  delete_panics w e f g = rw (f, g, e) refl

  -- If the Helm client and its configuration come up, the reconcile of a HelmApp that is marked for
  -- deletion and whose status is nil panics, in every world, and leaves the world as the reading of
  -- the HelmApp, the making of the client and the initialisation of the configuration left it: no
  -- uninstall was called and no update sent, neither of the status nor of the finalizers.
  pub delete_without_status_panics :
      (ns n : String) (w : c.World)
      → (c.get ns n w).0 ≡ ok app
      → c.is_zero app.meta.deletion_timestamp ≡ false
      → app.status ≡ none
      → (c.new_registry_client (c.get ns n w).1).0 ≡ ok client
      → (c.init
          (c.configuration client)
          app.meta.namespace
          (c.new_registry_client (c.get ns n w).1).1).0.0
        ≡ none
      → reconcile c ns n w ≡ (
        panicked,
        (c.init
            (c.configuration client)
            app.meta.namespace
            (c.new_registry_client (c.get ns n w).1).1).1,
      )
  unfolding reconcile if_err ◌>>=◌
  delete_without_status_panics ns n w g z e f i =
      rw (g, if_err, z) (delete_panics (c.get ns n w).1 e f i)
