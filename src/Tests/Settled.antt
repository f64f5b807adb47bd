-- ===== src/Tests/Settled.antt =====
-- A Helm that keeps the releases of one namespace, and nothing of any other: a reconcile where every
-- release is as it is wanted.
use pluma_opeartor.Base.{
  String, ◌≡◌, refl, true, ◌==◌, ◌&&◌, none, some, List, [], ◌∷◌, if◌then◌else◌,
}
use pluma_opeartor.Effects.{Result, ok, err, release_not_found}
use pluma_opeartor.Cluster.{Cluster, Release}
use pluma_opeartor.Controller.Component.{component_values}
use pluma_opeartor.Controller.Reconcile.{reconcile}
use pluma_opeartor.Controller.Reconcile.Steady.{SteadyLaws, IsSettled, reconcile_steady}
use pluma_opeartor.Tests.Memory.{memory, member, without, a_release}
use pluma_opeartor.Tests.Releases.{app_with, spec, component_of}

abbrev older : Release
older = record a_release { chart_version = some "0.9.0" }

-- What is recorded of a release.
abbrev revisions : String → String → List String → Result (List Release)
revisions ns name w =
    if (ns == "istio-system") && member name w
    then ok (older ∷ a_release ∷ [])
    else err (record { kind = release_not_found; message = "release: not found" })

-- A configuration is its namespace, and the world is the names of the releases.
abbrev cluster : Cluster
cluster = record {
  World = List String;
  Registry = Unit {0};
  Config = String;
  Chart = Unit {0};
  is_zero = memory.is_zero;
  contains_finalizer = memory.contains_finalizer;
  add_finalizer = memory.add_finalizer;
  remove_finalizer = memory.remove_finalizer;
  ignore_not_found = memory.ignore_not_found;
  multi_error = memory.multi_error;
  as_map = memory.as_map;
  status_failed = "failed";
  status_deployed = "deployed";
  get = λ ns n w. (ok (app_with none none), w);
  update = λ app w. ((none, app), w);
  update_status = λ app w. ((none, app), w);
  new_registry_client = λ w. (ok tt, w);
  configuration = λ r. "";
  init = λ cfg ns w. ((none, ns), w);
  locate_chart = λ i chart w. (ok chart, w);
  load_chart = λ path w. (ok tt, w);
  history = λ cfg n w. (revisions cfg n w, w);
  install = λ cfg i chart values w. ((some a_release, none), i.release_name ∷ w);
  upgrade = λ cfg u n chart values w. ((some a_release, none), n ∷ w);
  get_release = λ cfg n w. ((some a_release, none), w);
  uninstall = λ cfg n w. (none, without w n);
  build_infos = λ cfg manifest w. (ok [], w);
}

abbrev installed : List String
installed = "base" ∷ "istiod" ∷ []

abbrev Unchanged : List String → Type 0
Unchanged w = w ≡ installed

abbrev steady_laws : SteadyLaws cluster Unchanged
steady_laws = record {
  reads = record {
    locate-P = λ i chart w p. p;
    load-P = λ path w p. p;
    history-P = λ cfg n w p. p;
    build_infos-P = λ cfg m w p. p;
  };
  get-P = λ ns n w p. p;
  update_status-P = λ app w p. p;
  registry-P = λ w p. p;
  IsConfig = λ ns cfg. cfg ≡ ns;
  init-IsConfig = λ cfg ns w e. refl;
  init-P = λ cfg ns w p. p;
}

recorded :
    (name cfg : String) (w : List String)
    → member name installed ≡ true
    → cfg ≡ "istio-system"
    → Unchanged w
    → revisions cfg name w ≡ ok (older ∷ a_release ∷ [])
recorded name cfg w m q p = rw (q, p, m) refl

settled :
    (name : String)
    → member name installed ≡ true
    → IsSettled cluster steady_laws "istio-system" spec (component_of name)
unfolding component_values
settled name m = record {
  values-IsMap = tt;
  values-NoNan = tt;
  current = λ cfg w q p. record {
    releases = older ∷ a_release ∷ [];
    newest = a_release;
    is_ok = recorded name cfg w m q p;
    is_last = refl;
    version = refl;
    config = refl;
  };
}

reconcile_steady_example : Unchanged (reconcile cluster "istio-system" "mesh" installed).1
reconcile_steady_example =
    reconcile_steady cluster steady_laws (app_with none none) spec refl
      (settled "base" refl, (settled "istiod" refl, tt)) tt "istio-system" "mesh" installed refl
      refl refl refl
