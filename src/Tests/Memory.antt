-- ===== src/Tests/Memory.antt =====
-- A Kubernetes client and a Helm that keep the names of the releases and one HelmApp in memory. The
-- release "stuck" cannot be uninstalled.
use pluma_opeartor.Base.{
  String, ◌≡◌, refl, Bool, true, false, not, ◌==◌, ◌&&◌, ◌||◌, eq_iff, eq_refl, Option, none, some,
  List, [], ◌∷◌, arith, if◌then◌else◌,
}
use pluma_opeartor.Constants.{helm_app_finalizer}
use pluma_opeartor.Values.{Fields, end}
use pluma_opeartor.Effects.{GoError, plain, api_not_found, release_not_found, ok, err}
use pluma_opeartor.Cluster.{Cluster, Release}
use pluma_opeartor.Controller.Uninstall.{other_error}
use pluma_opeartor.Controller.Delete.Sweep.{Laws}

pub record Store : Type 0 where
  pub releases : List String
  pub has_finalizer : Bool

abbrev pub member : String → List String → Bool
member x [] = false
member x (y ∷ ys) = y == x || member x ys

abbrev pub without : List String → String → List String
without [] x = []
without (y ∷ ys) x = let rest = without ys x in if y == x then rest else y ∷ rest

abbrev pub fails : String → GoError
fails message = record { kind = plain; message = message }

abbrev pub a_release : Release
a_release = record {
  version = 1;
  status = some "deployed";
  manifest = "";
  chart_version = some "1.0.0";
  config = some end;
}

abbrev pub map_of : Option Fields → Fields
map_of none = end
map_of (some m) = m

abbrev pub find : String → Store → (Option Release × Option GoError) × Store
find name w = (
  if member name w.releases
      then (some a_release, none)
      else (none, some (record { kind = release_not_found; message = "release: not found" })),
  w,
)

abbrev pub remove : String → Store → Option GoError × Store
remove name w =
    if name == "stuck"
    then (some (fails "timed out"), w)
    else (none, record w { releases = without w.releases name })

abbrev pub memory : Cluster
memory = record {
  World = Store;
  Registry = Unit {0};
  Config = Unit {0};
  Chart = Unit {0};
  is_zero = elim [ none ↦ true | some t ↦ false ];
  contains_finalizer = λ fs f. member f fs;
  add_finalizer = λ fs f. f ∷ fs;
  remove_finalizer = λ fs f. without fs f;
  ignore_not_found = λ e. elim e.kind [ api_not_found ↦ none | _ ↦ some e ];
  multi_error = elim [ [] ↦ "" | e ∷ es ↦ e.message ];
  as_map = map_of;
  status_failed = "failed";
  status_deployed = "deployed";
  get = λ ns name w. (err (record { kind = api_not_found; message = "not found" }), w);
  update = λ app w.
      ((none, app), record w { has_finalizer = member helm_app_finalizer app.meta.finalizers });
  update_status = λ app w. ((none, app), w);
  new_registry_client = λ w. (ok tt, w);
  configuration = λ r. tt;
  init = λ cfg ns w. ((none, cfg), w);
  locate_chart = λ i chart w. (ok chart, w);
  load_chart = λ path w. (ok tt, w);
  history = λ cfg name w. (ok (a_release ∷ []), w);
  install = λ cfg i chart values w.
      ((some a_release, none), record w { releases = i.release_name ∷ w.releases });
  upgrade = λ cfg u name chart values w. ((none, some (fails "no such chart")), w);
  get_release = λ cfg name w. find name w;
  uninstall = λ cfg name w. remove name w;
  build_infos = λ cfg manifest w. (ok [], w);
}

pub member-without :
    (x y : String) (ys : List String) → member x (without ys y) ≡ (member x ys && not (y == x))
member-without x y [] = refl
member-without x y (z ∷ ys) =
    ground (arith, member-without x y ys, eq_iff z y, eq_iff y x, eq_iff z x)

abbrev Installed : Store → String → String → Type 0
Installed w ns name = member name w.releases ≡ true

pub absent_if_not_found :
    (name : String) (w : Store) → (find name w).0.0 ≡ none → ¬ Installed w "" name
absent_if_not_found name w h i = ground arith

pub absent_if_removed :
    (name : String) (w : Store)
    → other_error (remove name w).0 ≡ none
    → ¬ Installed (remove name w).1 "" name
unfolding other_error
absent_if_removed name w h i = ground (arith, member-without name name w.releases, eq_refl name)

pub removal_installs :
    (name m : String) (w : Store) → Installed (remove name w).1 "" m → Installed w "" m
removal_installs name m w i = ground (arith, member-without m name w.releases)

pub removal_keeps_finalizer :
    (name : String) (w : Store) → w.has_finalizer ≡ true → (remove name w).1.has_finalizer ≡ true
removal_keeps_finalizer name w h = ground arith

abbrev pub memory_laws : Laws memory
memory_laws = record {
  Installed = Installed;
  IsConfig = λ cfg ns. Unit {0};
  Finalized = λ w. w.has_finalizer ≡ true;
  init-IsConfig = λ cfg ns w h. tt;
  get_release-absent = λ cfg ns name w k h g. absent_if_not_found name w g;
  uninstall-absent = λ cfg ns name w k h. absent_if_removed name w h;
  get_release-installs = λ cfg name w ns m i. i;
  uninstall-installs = λ cfg name w ns m i. removal_installs name m w i;
  update_status-installs = λ app w ns m i. i;
  update-installs = λ app w ns m i. i;
  registry-Finalized = λ w f. f;
  init-Finalized = λ cfg ns w f. f;
  get_release-Finalized = λ cfg name w f. f;
  uninstall-Finalized = λ cfg name w f. removal_keeps_finalizer name w f;
  update_status-Finalized = λ app w f. f;
}
