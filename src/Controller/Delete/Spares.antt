-- ===== src/Controller/Delete/Spares.antt =====
-- A deletion uninstalls only releases that the status reports.
use mathlib.Core.List.{reverse, reverse_aux}
use pluma_opeartor.Base.{
  String, ◌≢◌, ◌==◌, Bool, true, false, some, List, [], ◌∷◌, All, length, Bool-cases, Option-cases,
  subst, inl, inr, if◌then◌else◌,
}
use pluma_opeartor.Effects.{
  pure, call, wrap, Keeps, keeps_rules, Keeps-bind, Keeps-pure, Keeps-panic, Keeps-if_err,
  Keeps-if_error, Keeps-call,
}
use pluma_opeartor.Api.{HelmApp, HelmComponentStatus}
use pluma_opeartor.Cluster.{Cluster}
use pluma_opeartor.Controller.Uninstall.{new_action_configuration}
use pluma_opeartor.Controller.Spared.{
  SparesLaws, IsUnreported, HasNoReport, uninstall_component-Keeps, new_action_configuration-Keeps,
}
use pluma_opeartor.Constants.{server_failed_after}
use pluma_opeartor.Controller.Delete.{
  retry_after, delete_one, delete_loop, release_app, finish_delete, delete_components, delete_with,
  reconcile_delete,
}
use pluma_opeartor.Controller.Delete.Loop.{delete_reversed, delete_loop-refines}

All-reverse_aux :
    (P : HelmComponentStatus → Type 0) (xs ys : List HelmComponentStatus)
    → All P xs
    → All P ys
    → All P (reverse_aux xs ys)
All-reverse_aux P [] ys h k = k
All-reverse_aux P (x ∷ xs) ys (h, hs) k = All-reverse_aux P xs (x ∷ ys) hs (h, k)

module _ (c : Cluster) (name : String) {P : c.World → Type 0} (L : SparesLaws c name P) where
  open L use {update-P, update_status-P, init-P}

  delete_one-Keeps :
      (cfg : c.Config) (s : HelmComponentStatus) → s.name ≢ name → Keeps P (delete_one c cfg s)
  unfolding delete_one
  delete_one-Keeps cfg s h = elim (Bool-cases (s.name == "")) [
    | inl e ↦ rw (e, delete_one) (Keeps-pure _)
    | inr e ↦
        rw (e, delete_one) (search (keeps_rules, uninstall_component-Keeps c name L cfg s.name h))
  ]

  delete_reversed-Keeps :
      (cfg : c.Config) (cs kept : List HelmComponentStatus) (all : Bool)
      → IsUnreported name cs
      → Keeps P (delete_reversed c cfg cs kept all)
  unfolding delete_reversed
  delete_reversed-Keeps cfg [] kept all h = Keeps-pure _
  delete_reversed-Keeps cfg (s ∷ cs) kept all (h, hs) =
      Keeps-bind (delete_one c cfg s) _ (delete_one-Keeps cfg s h) (λ (s', clean).
        delete_reversed-Keeps cfg cs (if clean then kept else s' ∷ kept)
          (if clean then all else false) hs)

  delete_loop-Keeps :
      (cfg : c.Config) (cs : List HelmComponentStatus)
      → IsUnreported name cs
      → Keeps P (delete_loop c cfg (length cs) cs true)
  delete_loop-Keeps cfg cs h = record {
    at = λ w p.
        rw (delete_loop-refines c cfg cs w)
          ((delete_reversed-Keeps cfg (reverse cs) [] true (All-reverse_aux _ cs [] h tt)).at w p);
  }

  release_app-Keeps : (app : HelmApp) (all : Bool) → Keeps P (release_app c app all)
  unfolding release_app
  release_app-Keeps app true = search (keeps_rules, update-P)
  release_app-Keeps app false = Keeps-pure _

  finish_delete-Keeps : (app : HelmApp) (all : Bool) → Keeps P (finish_delete c app all)
  unfolding finish_delete
  finish_delete-Keeps app all = elim (Option-cases app.status) [
    | inl e ↦ rw (e, finish_delete) Keeps-panic
    | inr (status, e) ↦
        rw (e, finish_delete) (search (keeps_rules, update_status-P, release_app-Keeps))
  ]

  delete_components-Keeps :
      (cfg : c.Config) (app : HelmApp)
      → HasNoReport name app.status
      → Keeps P (delete_components c cfg app)
  unfolding delete_components
  delete_components-Keeps cfg app h = elim (Option-cases app.status) [
    | inl e ↦ rw (e, delete_components) (Keeps-pure _)
    | inr (status, e) ↦
        rw (e, delete_components)
          (search
            (keeps_rules, delete_loop-Keeps cfg status.components (subst (HasNoReport name) e h)))
  ]

  delete_with-Keeps :
      (cfg : c.Config) (app : HelmApp)
      → HasNoReport name app.status
      → Keeps P (delete_with c cfg app)
  unfolding delete_with
  delete_with-Keeps cfg app h =
      Keeps-bind (delete_components c cfg app) _ (delete_components-Keeps cfg app h)
        (λ (app', all). finish_delete-Keeps app' all)

  pub reconcile_delete-Keeps :
      (app : HelmApp) → HasNoReport name app.status → Keeps P (reconcile_delete c app)
  unfolding reconcile_delete
  reconcile_delete-Keeps app h =
      Keeps-bind (new_action_configuration c) _ (new_action_configuration-Keeps c name L) (λ r.
        Keeps-if_err r _ _ (λ e. Keeps-pure _)
          (λ cfg.
            Keeps-bind (call (c.init cfg app.meta.namespace)) _
              (Keeps-call _ (init-P cfg app.meta.namespace))
              (λ (e, cfg').
                Keeps-if_error e
                  (λ failure. pure (
                    retry_after server_failed_after,
                    some (wrap "failed to initialize Helm action config: " failure),
                  ))
                  _ (λ failure. Keeps-pure _) (delete_with-Keeps cfg' app h))))
