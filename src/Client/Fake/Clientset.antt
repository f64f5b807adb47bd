-- ===== src/Client/Fake/Clientset.antt =====
-- The fake clientset over an object tracker: apis/client/clientset/versioned/fake/
-- clientset_generated.go, and fake_operator_client.go below typed/operator/v1alpha1/fake.
pub mod Found
use pluma_opeartor.Base.{String, Bool, true, false, Option, none, some, List, [], ◌∷◌}
use pluma_opeartor.Base.Dict.{Dict}
use pluma_opeartor.Effects.{GoError, Result, ok, err, Action, pure, panic, call, ◌>>=◌, if_error}
use pluma_opeartor.Client.{ListOptions, HelmApps, new_helm_apps}
use pluma_opeartor.Client.Fake.{Resource, FakeAction, Object, FakeServer}

-- A reaction says whether it handled the action.
pub record Reactor (W R : Type 0) : Type 0 where
  pub verb : String
  pub resource : String
  pub react : FakeAction R → W → (Bool × Option Object × Option GoError) × W

pub record WatchReactor (W R Watcher : Type 0) : Type 0 where
  pub resource : String
  pub react : FakeAction R → W → (Bool × Option Watcher × Option GoError) × W

-- What the clientset takes from client-go's testing package: a tracker, the reaction that serves
-- actions from it, and how `Fake` runs its chains of reactors. The world holds the tracker.
pub record Testing (W : Type 0) : Type 1 where
  pub Watcher : Type 0
  pub Selector : Type 0
  pub Restrictions : Type 0
  pub list_restrictions : ListOptions → Restrictions
  pub watch_restrictions : ListOptions → Restrictions
  pub delete_restrictions : ListOptions → Restrictions
  pub add : Object → W → Option GoError × W
  pub watch : Resource → String → W → Result Watcher × W
  pub object_reaction : FakeAction Restrictions → W → (Bool × Option Object × Option GoError) × W
  pub get_resource : FakeAction Restrictions → Resource
  pub get_namespace : FakeAction Restrictions → String
  pub run :
      List (Reactor W Restrictions)
      → FakeAction Restrictions
      → W
      → (Option Object × Option GoError) × W
  pub run_watch :
      List (WatchReactor W Restrictions Watcher)
      → FakeAction Restrictions
      → W
      → (Option Watcher × Option GoError) × W
  pub extract_label : ListOptions → Option Selector
  pub everything : Selector
  pub matches : Selector → Option (Dict String) → Bool

module _ {W : Type 0} (t : Testing W) where
  -- `Clientset`, with the chains of its `testing.Fake`
  pub record FakeClientset : Type 0 where
    pub reactors : List (Reactor W t.Restrictions)
    pub watch_reactors : List (WatchReactor W t.Restrictions t.Watcher)

  -- The loop over the objects.
  unfoldable pub add_all : List Object → Action W (Unit {0})
  unfolding ◌>>=◌
  add_all [] = pure tt
  add_all (obj ∷ objects) =
      let rest = add_all objects in call (t.add obj) >>= λ e. if_error e (λ x. panic) rest

  -- The reaction to a watch: an error of the tracker leaves the action to other reactors.
  unfoldable pub watch_reaction :
      FakeAction t.Restrictions → W → (Bool × Option t.Watcher × Option GoError) × W
  watch_reaction action w =
      let (watched, w') = t.watch (t.get_resource action) (t.get_namespace action) w in
      (elim watched [ err e ↦ (false, none, some e) | ok watcher ↦ (true, some watcher, none) ], w')

  abbrev pub object_reactor : Reactor W t.Restrictions
  object_reactor = record { verb = "*"; resource = "*"; react = t.object_reaction }

  -- The clientset with its two reactors.
  abbrev pub clientset : FakeClientset
  clientset = record {
    reactors = object_reactor ∷ [];
    watch_reactors = record { resource = "*"; react = watch_reaction } ∷ [];
  }

  unfoldable pub new_simple_clientset : List Object → Action W FakeClientset
  unfolding add_all
  new_simple_clientset objects = add_all objects >>= λ added. pure clientset

  -- `OperatorV1alpha1()`: the fake client shares the chains.
  abbrev pub fake_operator : FakeClientset → FakeServer W
  fake_operator cs = record {
    Selector = t.Selector;
    Watcher = t.Watcher;
    Restrictions = t.Restrictions;
    list_restrictions = t.list_restrictions;
    watch_restrictions = t.watch_restrictions;
    delete_restrictions = t.delete_restrictions;
    invokes = t.run cs.reactors;
    invokes_watch = t.run_watch cs.watch_reactors;
    extract_label = t.extract_label;
    everything = t.everything;
    matches = t.matches;
  }

-- `HelmApps(namespace)` of the fake operator client
abbrev pub fake_helm_apps : String → HelmApps
fake_helm_apps namespace = new_helm_apps namespace
