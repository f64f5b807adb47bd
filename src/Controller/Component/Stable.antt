-- ===== src/Controller/Component/Stable.antt =====
-- When a release that is there is upgraded, and when it is left alone.
use pluma_opeartor.Base.{
  String, ◌≡◌, refl, true, eq_refl, none, some, List, [], arith, Bool-cases, inl, inr,
}
use pluma_opeartor.Values.{Any, Fields, object, IsMap}
use pluma_opeartor.Values.Paths.{at}
use pluma_opeartor.Values.Equal.{deep_equal_maps}
use pluma_opeartor.Values.Equal.Laws.{NoNan, deep_equal_maps_refl, at-deep_equal, EqualOption}
use pluma_opeartor.Effects.{ok, done}
use pluma_opeartor.Api.{HelmComponent}
use pluma_opeartor.Cluster.{Cluster, Release, Install, Upgrade}
use pluma_opeartor.Controller.Component.{
  has_config_changed, differs, last?, first?, run_upgrade, sync_release,
}

module _ (c : Cluster) (cfg : c.Config) (install : Install) (upgrade : Upgrade)
    (component : HelmComponent) (chart : c.Chart) (values : Fields) (history : List Release)
    (newest : Release) where
  -- A release whose newest revision bears the wanted chart version and a recorded configuration
  -- that is the wanted values, a map without NaN, is neither installed nor upgraded: the world
  -- stays as it is, there is no error, and the first revision of the history is reported.
  pub sync_release_stable :
      (w : c.World)
      → last? history ≡ some newest
      → newest.chart_version ≡ some component.version
      → newest.config ≡ some values
      → IsMap values
      → NoNan values
      → sync_release c cfg install upgrade component chart values (ok history) w
        ≡ (done (first? history, []), w)
  unfolding sync_release has_config_changed differs
  sync_release_stable w e v same u z =
      rw
        (
          e,
          v,
          same,
          eq_refl component.version,
          deep_equal_maps_refl values u z,
          sync_release,
          has_config_changed,
          differs,
        )
        refl

  upgrades_if_changed :
      (w : c.World)
      → last? history ≡ some newest
      → has_config_changed newest values component.version ≡ done true
      → sync_release c cfg install upgrade component chart values (ok history) w
        ≡ run_upgrade c cfg upgrade component chart values w
  unfolding sync_release
  upgrades_if_changed w e h = rw (e, h, sync_release) refl

  -- A release is upgraded if its newest revision records, at some path, a value that has no equal
  -- among the wanted values at that path. The revision has its chart.
  pub changed_path_upgrades :
      (w : c.World) (config : Fields) (p : List String) (x : Any) (version : String)
      → last? history ≡ some newest
      → newest.chart_version ≡ some version
      → newest.config ≡ some config
      → at p (object config) ≡ some x
      → ¬ EqualOption x (at p (object values))
      → sync_release c cfg install upgrade component chart values (ok history) w
        ≡ run_upgrade c cfg upgrade component chart values w
  changed_path_upgrades w config p x version e v f g n =
      upgrades_if_changed w e (elim (Bool-cases (deep_equal_maps config values)) [
        | inl same ↦ absurd (
            n (
              at-deep_equal p (object config) (object values) x (unfold deep_equal_maps in same) g))
        | inr differ ↦ unfold has_config_changed differs in ground arith
      ])

  -- A release whose newest revision has its chart and a nil configuration is upgraded whatever the wanted values
  -- are, the empty map included.
  pub nil_config_upgrades :
      (w : c.World) (version : String)
      → last? history ≡ some newest
      → newest.chart_version ≡ some version
      → newest.config ≡ none
      → sync_release c cfg install upgrade component chart values (ok history) w
        ≡ run_upgrade c cfg upgrade component chart values w
  nil_config_upgrades w version e v f =
      upgrades_if_changed w e (unfold has_config_changed differs in ground arith)
