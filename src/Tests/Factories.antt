-- ===== src/Tests/Factories.antt =====
-- An informer factory in which one informer is asked for and started twice.
use pluma_opeartor.Base.{ℕ, ◌≡◌, refl, true, List, [], ◌∷◌, All}
use pluma_opeartor.Base.Dict
use pluma_opeartor.Base.Dict.{Dict}
use pluma_opeartor.Informers.{
  Cache, Factory, SharedInformerOption, with_custom_resync_config, set_all, apply_option,
  apply_options, new_factory_with_options, start_one, start, informer_for, resync_period,
  wait_for_cache_sync, synced,
}
use pluma_opeartor.Informers.Once.{
  indicator, count, IsShared, is_started, Reached, made, asked, started, runs_once, runs-IsShared,
}

-- An informer is its resync period.
abbrev cache : Cache
cache = record {
  Client = Unit {0};
  Tweak = Unit {0};
  Informer = ℕ;
  wait_for_cache_sync = λ informer. true;
}

abbrev options : List (SharedInformerOption cache)
options = with_custom_resync_config (("HelmApp", 7) ∷ []) ∷ []

abbrev period : Unit {0} → ℕ → ℕ
period client resync = resync

abbrev empty : Factory cache
empty = new_factory_with_options tt 30 options

abbrev asked_once : Factory cache
asked_once = (informer_for "HelmApp" period empty).1

abbrev order : Dict ℕ
order = ("HelmApp", 7) ∷ []

abbrev once : Factory cache
once = (start order asked_once).1

abbrev twice : Factory cache
twice = (start order once).1

asked_test : (informer_for "HelmApp" period empty).0 ≡ 7
unfolding informer_for resync_period new_factory_with_options apply_options apply_option set_all
    Dict.lookup Dict.insert
asked_test = refl

start_test : (start order asked_once).0 ≡ order
unfolding start start_one informer_for resync_period new_factory_with_options apply_options
    apply_option set_all Dict.lookup Dict.insert
start_test = refl

sync_test : wait_for_cache_sync once ≡ ("HelmApp", true) ∷ []
unfolding wait_for_cache_sync synced start start_one informer_for resync_period
    new_factory_with_options apply_options apply_option set_all Dict.lookup Dict.insert
sync_test = refl

is_shared : All (IsShared asked_once) order
unfolding informer_for resync_period new_factory_with_options apply_options apply_option set_all
    Dict.lookup Dict.insert
is_shared = (refl, tt)

Reached-once : Reached once ((start order asked_once).0)
Reached-once = started order is_shared (asked "HelmApp" period (made tt 30 options))

runs_once_example :
    count "HelmApp" ((start order asked_once).0) ≡ indicator (is_started "HelmApp" once)
runs_once_example = runs_once Reached-once "HelmApp"

runs-IsShared_example : All (IsShared once) ((start order asked_once).0)
runs-IsShared_example = runs-IsShared Reached-once
