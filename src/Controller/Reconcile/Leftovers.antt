-- ===== src/Controller/Reconcile/Leftovers.antt =====
-- The statuses that a reconcile keeps of removed components.
use pluma_opeartor.Base.{◌≡◌, refl, sym, subst, Option, none, some, List, [], ◌∷◌}
use pluma_opeartor.Effects.{GoError, Outcome, done, panicked, pure, Returns, bind-Returns}
use pluma_opeartor.Api.{HelmComponent, HelmComponentStatus}
use pluma_opeartor.Cluster.{Cluster}
use pluma_opeartor.Controller.Uninstall.{uninstall_component}
use pluma_opeartor.Controller.Reconcile.{desired_components, uninstall_failure, uninstall_removed}
use pluma_opeartor.Controller.Reconcile.Removed.{orphans, uninstall_each, uninstall_removed-orphans}
use pluma_opeartor.Controller.Reconcile.Returning.{uninstall_component-Total}

-- The components are uninstalled one after the other, from the first world to the second. What could
-- not be uninstalled is left, as a failed status under the name of its component.
pub data Leftovers (c : Cluster) (cfg : c.Config)
    : List HelmComponentStatus → List HelmComponentStatus → c.World → c.World → Type 0 where
  nothing_left : {w : c.World} → Leftovers c cfg [] [] w w
  uninstalled :
      {o : HelmComponentStatus} {os ls : List HelmComponentStatus} {w u v : c.World}
      → uninstall_component c cfg o.name w ≡ (done none, u)
      → Leftovers c cfg os ls u v
      → Leftovers c cfg (o ∷ os) ls w v
  left_over :
      {o s : HelmComponentStatus} {os ls : List HelmComponentStatus} {w u v : c.World} {e : GoError}
      → uninstall_component c cfg o.name w ≡ (done (some e), u)
      → s.name ≡ o.name
      → s.status ≡ c.status_failed
      → Leftovers c cfg os ls u v
      → Leftovers c cfg (o ∷ os) (s ∷ ls) w v

-- What a call that returns gave.
its_result :
    {W A : Type 0} (r : Outcome A × W)
    → Returns r (λ a v. Unit {0})
    → Returns r (λ a v. r ≡ (done a, v))
its_result (done a, v) h = refl
its_result (panicked, v) h = h

module _ (c : Cluster) (cfg : c.Config) where
  one_more :
      (o : HelmComponentStatus) (os ls : List HelmComponentStatus) (x : Option GoError)
      (w u v : c.World)
      → uninstall_component c cfg o.name w ≡ (done x, u)
      → Leftovers c cfg os ls u v
      → Leftovers c cfg
          (o ∷ os)
          (elim x [ none ↦ ls | some failure ↦ uninstall_failure c o failure ∷ ls ])
          w
          v
  one_more o os ls none w u v e h = uninstalled e h
  one_more o os ls (some failure) w u v e h = left_over e refl refl h

  uninstall_each-Leftovers :
      (os : List HelmComponentStatus) (w : c.World)
      → Returns (uninstall_each c cfg os w) (λ ls v. Leftovers c cfg os ls w v)
  unfolding uninstall_each pure
  uninstall_each-Leftovers [] w = nothing_left
  uninstall_each-Leftovers (o ∷ os) w =
      bind-Returns (λ x u. uninstall_component c cfg o.name w ≡ (done x, u))
        (λ ls v. Leftovers c cfg (o ∷ os) ls w v) (uninstall_component c cfg o.name) _ w
        (its_result _ ((uninstall_component-Total c cfg o.name).at w))
        (λ x u e.
          bind-Returns (λ ls v. Leftovers c cfg os ls u v) (λ ls v. Leftovers c cfg (o ∷ os) ls w v)
            (uninstall_each c cfg os) _ u (uninstall_each-Leftovers os u)
            (λ ls v h. one_more o os ls x w u v e h))

  pub uninstall_removed-Leftovers :
      (components : List HelmComponent) (statuses : List HelmComponentStatus) (w : c.World)
      → Returns
          (uninstall_removed c cfg (desired_components components []) statuses w)
          (λ ls v. Leftovers c cfg (orphans components statuses) ls w v)
  uninstall_removed-Leftovers components statuses w =
      subst (λ r. Returns r (λ ls v. Leftovers c cfg (orphans components statuses) ls w v))
        (sym (uninstall_removed-orphans c cfg components statuses w))
        (uninstall_each-Leftovers (orphans components statuses) w)
