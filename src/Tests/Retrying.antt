-- ===== src/Tests/Retrying.antt =====
-- Reconciles that return, that panic, and that are retried.
use pluma_opeartor.Base.{
  ℕ, zero, suc, ◌<◌, ◌≤◌, ◌≡◌, refl, ◌⊎◌, inl, inr, Option, none, some, subst, List, All, [], ◌∷◌,
  arith,
}
use pluma_opeartor.Effects.{GoError, ok, Returns, panicked}
use pluma_opeartor.Cluster.{Cluster, Release}
use pluma_opeartor.Controller.Component.Complete.{IsComplete, CompleteLaws}
use pluma_opeartor.Api.{HelmApp, HelmAppSpec}
use pluma_opeartor.Controller.Delete.{finished}
use pluma_opeartor.Controller.Uninstall.{other_error}
use pluma_opeartor.Controller.Delete.Retries.{FiniteFailures, Released}
use pluma_opeartor.Controller.Reconcile.{reconcile}
use pluma_opeartor.Controller.Reconcile.Returning.{reconcile-Returns, reconcile_without_repo_panics}
use pluma_opeartor.Controller.Reconcile.Retries.{rounds, rounds-finish}
use pluma_opeartor.Tests.Memory.{memory, fails, a_release}
use pluma_opeartor.Tests.Releases.{app_with, spec, repo, a_status, component_of, world}
use pluma_opeartor.Tests.Spared.{cluster}
use pluma_opeartor.Tests.Operators.{
  library, operator_with, three_components, convert_test, components_with, spec_with, profile_test,
}
use pluma_opeartor.Istio.Convert.{helm_app_of}
use pluma_opeartor.Istio.Convert.Accepted.{ReportsNames, converted-reconcile-Reports}
use pluma_opeartor.Istio.Convert.Names.{expected_names}
use pluma_opeartor.Constants.{helm_app_finalizer}
use pluma_opeartor.Controller.Reconcile.Reports.{Reports, reconcile-Reports}

read_releases :
    (releases : List Release) → ok (a_release ∷ []) ≡ ok releases → All IsComplete releases
read_releases [] e = cc
read_releases (r ∷ s ∷ releases) e = cc
read_releases (r ∷ []) e =
    let same : a_release ≡ r = cc in (subst IsComplete same ("deployed", "1.0.0", refl, refl), tt)

complete : CompleteLaws cluster
complete = record {
  history-IsComplete = λ cfg n w releases e. read_releases releases e;
  install-IsComplete = λ cfg i chart values w. ("deployed", "1.0.0", refl, refl);
  upgrade-IsComplete = λ cfg u n chart values w. tt;
}

reconcile-Returns_example :
    Returns (reconcile cluster "istio-system" "mesh" world) (λ r v. Unit {0})
reconcile-Returns_example =
    reconcile-Returns cluster complete spec repo refl (λ app w. refl) "istio-system" "mesh"
      (app_with none (some a_status)) world refl refl refl

abbrev repoless_spec : HelmAppSpec
repoless_spec = record spec { repo = none }

abbrev repoless : HelmApp
repoless = record (app_with none none) { spec = some repoless_spec }

abbrev repoless_cluster : Cluster
repoless_cluster = record memory { get = λ ns n w. (ok repoless, w) }

reconcile_without_repo_panics_example :
    (reconcile repoless_cluster "istio-system" "mesh" world).0 ≡ panicked
reconcile_without_repo_panics_example =
    reconcile_without_repo_panics repoless_cluster "istio-system" "mesh" repoless repoless_spec
      (component_of "base") (component_of "istiod" ∷ []) world tt refl refl refl refl refl refl refl
      refl

-- A cluster whose world is the number of uninstalls that are still going to fail.
abbrev uninstall_once : ℕ → Option GoError × ℕ
uninstall_once zero = (none, zero)
uninstall_once (suc k) = (some (fails "timed out"), k)

abbrev flaky : Cluster
flaky = record {
  World = ℕ;
  Registry = Unit {0};
  Config = Unit {0};
  Chart = Unit {0};
  is_zero = memory.is_zero;
  contains_finalizer = memory.contains_finalizer;
  add_finalizer = memory.add_finalizer;
  remove_finalizer = memory.remove_finalizer;
  ignore_not_found = memory.ignore_not_found;
  multi_error = memory.multi_error;
  as_map = memory.as_map;
  status_failed = "failed";
  status_deployed = "deployed";
  get = λ ns n w. (ok (app_with (some 5) (some a_status)), w);
  update = λ app w. ((none, app), w);
  update_status = λ app w. ((none, app), w);
  new_registry_client = λ w. (ok tt, w);
  configuration = λ r. tt;
  init = λ cfg ns w. ((none, cfg), w);
  locate_chart = λ i chart w. (ok chart, w);
  load_chart = λ path w. (ok tt, w);
  history = λ cfg n w. (ok (a_release ∷ []), w);
  install = λ cfg i chart values w. ((some a_release, none), w);
  upgrade = λ cfg u n chart values w. ((some a_release, none), w);
  get_release = λ cfg n w. ((some a_release, none), w);
  uninstall = λ cfg n w. uninstall_once w;
  build_infos = λ cfg manifest w. (ok [], w);
}

uninstall_law :
    (w : ℕ)
    → ((uninstall_once w).1 ≤ w)
      × ((other_error (uninstall_once w).0 ≡ none) ⊎ ((uninstall_once w).1 < w))
unfolding other_error
uninstall_law zero = (omega arith, inl refl)
uninstall_law (suc k) = (omega arith, inr (omega arith))

finite_failures : FiniteFailures flaky "istio-system" "mesh"
unfolding other_error
finite_failures = record {
  Deleting = λ w. Unit {0};
  left = λ w. w;
  get-found = λ w d. (app_with (some 5) (some a_status), a_status, refl, refl, refl);
  get-kept = λ w d. (tt, omega arith);
  registry = λ w d. (tt, refl, tt, omega arith);
  init = λ cfg ns w d. (refl, tt, omega arith);
  get_release = λ cfg n w d. (refl, tt, omega arith);
  uninstall = λ cfg n w d. (tt, (uninstall_law w).0, (uninstall_law w).1);
  update_status = λ app status w e d. (refl, tt, omega arith);
  update = λ app w d. refl;
}

rounds-finish_example :
    Returns
      (rounds flaky "istio-system" "mesh" 4 3)
      (λ r v. (r ≡ (finished, none)) × Released flaky v)
unfolding finite_failures
rounds-finish_example =
    rounds-finish flaky "istio-system" "mesh" finite_failures 4 3 tt (omega arith)

abbrev converted : HelmApp
converted = helm_app_of library (operator_with none) three_components

abbrev with_finalizer : HelmApp
with_finalizer = record converted {
  meta = record converted.meta { finalizers = helm_app_finalizer ∷ [] };
}

abbrev finalized : Cluster
finalized = record memory { get = λ ns n w. (ok with_finalizer, w) }

finalized_complete : CompleteLaws finalized
finalized_complete = record {
  history-IsComplete = λ cfg n w releases e. read_releases releases e;
  install-IsComplete = λ cfg i chart values w. ("deployed", "1.0.0", refl, refl);
  upgrade-IsComplete = λ cfg u n chart values w. tt;
}

converted-reconcile-Reports_example : Returns (reconcile finalized "istio-system" "mesh" world) (
    ReportsNames finalized tt
      (expected_names (operator_with none) (operator_with none) (some (components_with none)))
      with_finalizer)
unfolding helm_app_of
converted-reconcile-Reports_example =
    converted-reconcile-Reports library "profiles" (operator_with none) (operator_with none)
      (spec_with none) converted with_finalizer finalized finalized_complete "istio-system" "mesh"
      world tt refl (profile_test none) convert_test refl refl refl refl refl refl

reconcile-Reports_example :
    Returns
      (reconcile cluster "istio-system" "mesh" world)
      (Reports cluster tt (app_with none (some a_status)) spec)
reconcile-Reports_example =
    reconcile-Reports cluster complete (app_with none (some a_status)) spec repo refl refl
      "istio-system" "mesh" world tt refl refl refl refl refl
