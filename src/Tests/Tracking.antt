-- ===== src/Tests/Tracking.antt =====
-- A fake clientset over a tracker that keeps its HelmApps in a list.
use pluma_opeartor.Base.{
  String, Bool, true, false, ◌≡◌, refl, sym, ap, ap₂, ◌∙◌, ◌==◌, ◌&&◌, eq_iff, eq_refl, Option,
  none, some, List, [], ◌∷◌, map, Bool-cases, inl, inr, arith, if◌then◌else◌,
}
use pluma_opeartor.Effects.{GoError, err}
use pluma_opeartor.Api.{HelmApp}
use pluma_opeartor.Client.Fake.{
  Object, app_object, list_object, other_object, FakeAction, get_action, helmapps_resource,
}
use pluma_opeartor.Client.Fake.Clientset.{Reactor, Testing, new_simple_clientset}
use pluma_opeartor.Client.Fake.Clientset.Found.{
  TrackerLaws, GivesBack, new_simple_clientset-GivesBack,
}
use pluma_opeartor.Tests.Memory.{fails}
use pluma_opeartor.Tests.Releases.{app_with}

unfoldable find : String → String → List HelmApp → Option HelmApp
find ns n [] = none
find ns n (a ∷ w) = if (a.meta.namespace == ns) && (a.meta.name == n) then some a else find ns n w

unfoldable track : Option HelmApp → HelmApp → List HelmApp → Option GoError × List HelmApp
track none a w = (none, a ∷ w)
track (some b) a w = (some (fails "already exists"), w)

abbrev add_object : Object → List HelmApp → Option GoError × List HelmApp
add_object (app_object a) w = track (find a.meta.namespace a.meta.name w) a w
add_object _ w = (none, w)

abbrev answer : Option HelmApp → Bool × Option Object × Option GoError
answer none = (true, none, some (fails "not found"))
answer (some a) = (true, some (app_object a), none)

abbrev serve :
    FakeAction (Unit {0}) → List HelmApp → (Bool × Option Object × Option GoError) × List HelmApp
serve (get_action r ns n) w = (answer (find ns n w), w)
serve _ w = ((false, none, none), w)

abbrev handled : (Bool × Option Object × Option GoError) → Option Object × Option GoError
handled (true, o, e) = (o, e)
handled (false, o, e) = (none, none)

abbrev run_first :
    List (Reactor (List HelmApp) (Unit {0}))
    → FakeAction (Unit {0})
    → List HelmApp
    → (Option Object × Option GoError) × List HelmApp
run_first [] action w = ((none, none), w)
run_first (r ∷ rs) action w = let (a, w') = r.react action w in (handled a, w')

abbrev testing : Testing (List HelmApp)
testing = record {
  Watcher = Unit {0};
  Selector = Unit {0};
  Restrictions = Unit {0};
  list_restrictions = λ opts. tt;
  watch_restrictions = λ opts. tt;
  delete_restrictions = λ opts. tt;
  add = add_object;
  watch = λ r ns w. (err (fails "no watch"), w);
  object_reaction = serve;
  get_resource = λ action. helmapps_resource;
  get_namespace = λ action. "";
  run = run_first;
  run_watch = λ rs action w. ((none, none), w);
  extract_label = λ opts. none;
  everything = tt;
  matches = λ s labels. true;
}

abbrev Holds : HelmApp → List HelmApp → Type 0
Holds app w = find app.meta.namespace app.meta.name w ≡ some app

both : {a b : Bool} → (a && b) ≡ true → (a ≡ true) × (b ≡ true)
both {a} {b} h = ground arith

same_key :
    (a app : HelmApp) (w : List HelmApp)
    → (a.meta.namespace == app.meta.namespace) ≡ true
    → (a.meta.name == app.meta.name) ≡ true
    → find a.meta.namespace a.meta.name w ≡ find app.meta.namespace app.meta.name w
same_key a app w e f = ap₂ (λ ns n. find ns n w) ((eq_iff _ _).0 e) ((eq_iff _ _).0 f)

track-Holds :
    (app : HelmApp) (w : List HelmApp) (o : Option HelmApp)
    → (track o app w).0 ≡ none
    → Holds app (track o app w).1
unfolding track find
track-Holds app w none e = rw (eq_refl app.meta.namespace, eq_refl app.meta.name, find) refl
track-Holds app w (some b) e = absurd cc

track_keeps :
    (app a : HelmApp) (w : List HelmApp) (o : Option HelmApp)
    → find a.meta.namespace a.meta.name w ≡ o
    → (track o a w).0 ≡ none
    → Holds app w
    → Holds app (track o a w).1
unfolding track find
track_keeps app a w none f e h =
    elim (Bool-cases ((a.meta.namespace == app.meta.namespace) && (a.meta.name == app.meta.name))) [
      | inl b ↦
          let clash : ◌≡◌ {A = Option HelmApp} none (some app) =
            sym f ∙ same_key a app w (both b).0 (both b).1 ∙ h in
          absurd cc
      | inr b ↦ rw b h
    ]
track_keeps app a w (some b) f e h = absurd cc

add-keeps :
    (app : HelmApp) (o : Object) (w : List HelmApp)
    → (add_object o w).0 ≡ none
    → Holds app w
    → Holds app (add_object o w).1
add-keeps app (app_object a) w e h =
    track_keeps app a w (find a.meta.namespace a.meta.name w) refl e h
add-keeps app (list_object l) w e h = h
add-keeps app other_object w e h = h

tracker_laws : TrackerLaws testing
tracker_laws = record {
  Holds = Holds;
  add-Holds = λ app w e. track-Holds app w (find app.meta.namespace app.meta.name w) e;
  add-keeps = add-keeps;
  reaction-found = λ app w h. ap answer h;
  run-first = λ rs action w o e h. ap handled h;
}

abbrev named : String → HelmApp
named name = record (app_with none none) { meta = record (app_with none none).meta { name = name } }

abbrev two : List HelmApp
two = named "mesh" ∷ named "apps" ∷ []

new_simple_clientset-GivesBack_example :
    GivesBack testing tracker_laws two (new_simple_clientset testing (map app_object two) [])
new_simple_clientset-GivesBack_example = new_simple_clientset-GivesBack testing tracker_laws two []
