-- ===== src/Controller/Component/Names.antt =====
-- Whatever happens to a component, if Helm gives complete releases, its status comes back under its name.
use pluma_opeartor.Base.{
  inl, inr, Bool-cases, ◌≡◌, refl, sym, subst, String, Bool, true, false, [], ◌∷◌, All, Option,
  none, some, List,
}
use pluma_opeartor.Values.{Fields}
use pluma_opeartor.Effects.{
  GoError, is_release_not_found, Result, ok, err, done, pure, Returns, bind-Returns, ◌>>=◌,
  if_err-Returns,
}
use pluma_opeartor.Api.{HelmApp, HelmAppSpec, HelmRepo, HelmComponent, HelmComponentStatus}
use pluma_opeartor.Cluster.{Cluster, Release, Install, Upgrade}
use pluma_opeartor.Controller.Component.Complete.{IsComplete, IsCompleteOption, CompleteLaws}
use pluma_opeartor.Controller.Component.{
  initial_status, sync_release, sync_history, run_install, run_upgrade, upgrade_if, differs,
  has_config_changed, last?, first?, report_state, release_status, deploy_chart,
  reconcile_with_repo, reconcile_component,
}

module _ (c : Cluster) where
  -- The status is that of the component.
  abbrev pub Names : HelmComponent → HelmComponentStatus × Option GoError → c.World → Type 0
  Names component r w = r.0.name ≡ component.name

module _ (c : Cluster) (H : CompleteLaws c) where
  abbrev HasName : String → HelmComponentStatus → c.World → Type 0
  HasName name s w = s.name ≡ name

  -- The release to report on is complete.
  abbrev Given : Option Release × List GoError → c.World → Type 0
  Given r w = IsCompleteOption r.0

  last-IsComplete :
      (releases : List Release) → All IsComplete releases → IsCompleteOption (last? releases)
  last-IsComplete [] h = tt
  last-IsComplete (r ∷ []) h = h.0
  last-IsComplete (r ∷ s ∷ releases) (h, hs) = last-IsComplete (s ∷ releases) hs

  first-IsComplete :
      (releases : List Release) → All IsComplete releases → IsCompleteOption (first? releases)
  first-IsComplete [] h = tt
  first-IsComplete (r ∷ releases) h = h.0

  upgrade_if-Returns :
      (cfg : c.Config) (upgrade : Upgrade) (component : HelmComponent) (chart : c.Chart)
      (values : Fields) (first : Option Release) (changed : Bool) (w : c.World)
      → IsCompleteOption first
      → Returns (upgrade_if c cfg upgrade component chart values first (done changed) w) Given
  unfolding upgrade_if run_upgrade pure ◌>>=◌
  upgrade_if-Returns cfg upgrade component chart values first true w h =
      H.upgrade-IsComplete cfg upgrade component.name chart values w
  upgrade_if-Returns cfg upgrade component chart values first false w h = h

  changed-done :
      (newest : Release) (values : Fields) (version : String)
      → IsComplete newest
      → (changed : Bool) × (has_config_changed newest values version ≡ done changed)
  unfolding has_config_changed
  changed-done newest values version (state, recorded, e, f) =
      (differs recorded newest.config values version, rw f refl)

  sync_history-Returns :
      (cfg : c.Config) (upgrade : Upgrade) (component : HelmComponent) (chart : c.Chart)
      (values : Fields) (last first : Option Release) (w : c.World)
      → IsCompleteOption last
      → IsCompleteOption first
      → Returns (sync_history c cfg upgrade component chart values last first w) Given
  unfolding sync_history run_upgrade ◌>>=◌
  sync_history-Returns cfg upgrade component chart values none first w h k =
      H.upgrade-IsComplete cfg upgrade component.name chart values w
  sync_history-Returns cfg upgrade component chart values (some newest) first w h k =
      let (changed, e) = changed-done newest values component.version h in
      rw (e, sync_history) (upgrade_if-Returns cfg upgrade component chart values first changed w k)

  sync_release-Returns :
      (cfg : c.Config) (install : Install) (upgrade : Upgrade) (component : HelmComponent)
      (chart : c.Chart) (values : Fields) (history : Result (List Release)) (w : c.World)
      → ((releases : List Release) → history ≡ ok releases → All IsComplete releases)
      → Returns (sync_release c cfg install upgrade component chart values history w) Given
  unfolding sync_release run_install pure ◌>>=◌
  sync_release-Returns cfg install upgrade component chart values (err e) w h =
      elim (Bool-cases (is_release_not_found e)) [
        | inl b ↦ rw b (H.install-IsComplete cfg install chart values w)
        | inr b ↦ rw b tt
      ]
  sync_release-Returns cfg install upgrade component chart values (ok history) w h =
      sync_history-Returns cfg upgrade component chart values (last? history) (first? history) w
        (last-IsComplete history (h history refl)) (first-IsComplete history (h history refl))

  report_state-Names :
      (cfg : c.Config) (status : HelmComponentStatus) (release : Release) (state : String)
      (w : c.World)
      → Returns (report_state c cfg status release (some state) w) (HasName status.name)
  unfolding report_state ◌>>=◌
  report_state-Names cfg status release state w =
      if_err-Returns (HasName status.name) _ _ _ _ (λ x e. refl) (λ rs e. refl)

  release_status-Names :
      (cfg : c.Config) (status : HelmComponentStatus) (release : Option Release) (w : c.World)
      → IsCompleteOption release
      → Returns (release_status c cfg status release w) (HasName status.name)
  unfolding release_status pure
  release_status-Names cfg status none w h = refl
  release_status-Names cfg status (some release) w (state, version, e, f) =
      subst (λ s. Returns (report_state c cfg status release s w) (HasName status.name)) (sym e)
        (report_state-Names cfg status release state w)

  deploy_chart-Names :
      (cfg : c.Config) (install : Install) (upgrade : Upgrade) (component : HelmComponent)
      (chart : c.Chart) (values : Fields) (w : c.World)
      → Returns (deploy_chart c cfg install upgrade component chart values w) (Names c component)
  unfolding deploy_chart ◌>>=◌
  deploy_chart-Names cfg install upgrade component chart values w =
      bind-Returns Given (Names c component)
        (sync_release c cfg install upgrade component chart values
          (c.history cfg component.name w).0)
        _ _
        (sync_release-Returns cfg install upgrade component chart values _ _
          (H.history-IsComplete cfg component.name w))
        (λ (release, errors) v u.
          bind-Returns (HasName component.name) (Names c component)
            (release_status c cfg (initial_status component) release) _ _
            (release_status-Names cfg (initial_status component) release v u) (λ s u e. e))

  reconcile_with_repo-Names :
      (app : HelmApp) (spec : HelmAppSpec) (repo : HelmRepo) (component : HelmComponent)
      (cfg : c.Config) (w : c.World)
      → Returns (reconcile_with_repo c app spec repo component cfg w) (Names c component)
  unfolding reconcile_with_repo ◌>>=◌
  reconcile_with_repo-Names app spec repo component cfg w =
      if_err-Returns (Names c component) _ _ _ _ (λ x e. refl)
        (λ path e.
          if_err-Returns (Names c component) _ _ _ _ (λ x e'. refl)
            (λ chart e'. deploy_chart-Names _ _ _ component chart _ _))

  pub reconcile_component-Names :
      (app : HelmApp) (spec : HelmAppSpec) (repo : HelmRepo) (component : HelmComponent)
      (cfg : c.Config) (w : c.World)
      → app.spec ≡ some spec
      → spec.repo ≡ some repo
      → Returns (reconcile_component c app component cfg w) (Names c component)
  unfolding reconcile_component
  reconcile_component-Names app spec repo component cfg w e f =
      rw (e, f, reconcile_component) (reconcile_with_repo-Names app spec repo component cfg w)
