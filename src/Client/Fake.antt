-- ===== src/Client/Fake.antt =====
-- The fake client of HelmApps, for tests: typed/operator/v1alpha1/fake/fake_helmapp.go. Each method
-- invokes an action of client-go's testing package on a fake of the API server.
pub mod Clientset
use pluma_opeartor.Base.{String, Bool, Option, none, some, List, [], ◌∷◌, if◌then◌else◌}
use pluma_opeartor.Base.Dict.{Dict}
use pluma_opeartor.Effects.{GoError, Action, pure, panic, call, ◌>>=◌}
use pluma_opeartor.Api.{HelmApp}
use pluma_opeartor.Client.{
  ListOptions, HelmApps, Method, get, list, watch, create, update, update_status, delete,
  delete_collection, patch,
}

pub record Resource : Type 0 where
  pub group : String
  pub version : String
  pub resource : String

abbrev pub helmapps_resource : Resource
helmapps_resource = record {
  group = "operator.pluma.io";
  version = "v1alpha1";
  resource = "helmapps";
}

pub record ResourceKind : Type 0 where
  pub group : String
  pub version : String
  pub kind : String

abbrev pub helmapps_kind : ResourceKind
helmapps_kind = record { group = "operator.pluma.io"; version = "v1alpha1"; kind = "HelmApp" }

-- An action, by the function that makes it. Those over list options keep only the restrictions that
-- client-go parses out of the options.
pub data FakeAction (R : Type 0) : Type 0 where
  get_action : Resource → String → String → FakeAction R
  list_action : Resource → ResourceKind → String → R → FakeAction R
  watch_action : Resource → String → R → FakeAction R
  create_action : Resource → String → HelmApp → FakeAction R
  update_action : Resource → String → HelmApp → FakeAction R
  update_subresource_action : Resource → String → String → HelmApp → FakeAction R
  delete_action_with_options : Resource → String → String → String → FakeAction R
  delete_collection_action : Resource → String → R → FakeAction R
  patch_subresource_action :
      Resource → String → String → String → String → List String → FakeAction R

-- A list holds pointers, any of which may be nil.
pub record HelmAppList : Type 0 where
  pub list_meta : String
  pub items : List (Option HelmApp)

pub data Object : Type 0 where
  app_object : HelmApp → Object
  list_object : HelmAppList → Object
  other_object : Object

-- What the methods take from client-go: `Invokes`, `InvokesWatch`, what the actions of a list, of a
-- watch and of a deletion of many parse out of their options, the label selector that
-- `ExtractFromListOptions` finds, and its test.
pub record FakeServer (W : Type 0) : Type 1 where
  pub Selector : Type 0
  pub Watcher : Type 0
  pub Restrictions : Type 0
  pub list_restrictions : ListOptions → Restrictions
  pub watch_restrictions : ListOptions → Restrictions
  pub delete_restrictions : ListOptions → Restrictions
  pub invokes : FakeAction Restrictions → W → (Option Object × Option GoError) × W
  pub invokes_watch : FakeAction Restrictions → W → (Option Watcher × Option GoError) × W
  pub extract_label : ListOptions → Option Selector
  pub everything : Selector
  pub matches : Selector → Option (Dict String) → Bool

-- `obj.(*v1alpha1.HelmApp)` behind the test for nil
unfoldable pub as_app :
    {W : Type 0} → Option Object × Option GoError → Action W (Option HelmApp × Option GoError)
as_app (none, e) = pure (none, e)
as_app (some (app_object app), e) = pure (some app, e)
as_app (some _, e) = panic

-- The loop of `List`: a nil pointer has no `Labels`.
unfoldable pub keep_matching :
    {W : Type 0}
    → (Option (Dict String) → Bool)
    → List (Option HelmApp)
    → Action W (List (Option HelmApp))
unfolding ◌>>=◌
keep_matching matching [] = pure []
keep_matching matching (none ∷ items) = panic
keep_matching matching (some app ∷ items) = keep_matching matching items >>= λ kept.
    pure (if matching app.meta.labels then some app ∷ kept else kept)

module _ {W : Type 0} (s : FakeServer W) (c : HelmApps) where
  -- The action that a method invokes. Those of `create`, the updates, `get` and `patch` do not carry
  -- the options, and that of `delete_collection` does not carry the options of the deletion.
  unfoldable pub fake_action : Method → FakeAction s.Restrictions
  fake_action (get name options) = get_action helmapps_resource c.ns name
  fake_action (list opts) =
      list_action helmapps_resource helmapps_kind c.ns (s.list_restrictions opts)
  fake_action (watch opts) = watch_action helmapps_resource c.ns (s.watch_restrictions opts)
  fake_action (create app opts) = create_action helmapps_resource c.ns app
  fake_action (update app opts) = update_action helmapps_resource c.ns app
  fake_action (update_status app opts) =
      update_subresource_action helmapps_resource "status" c.ns app
  fake_action (delete name opts) = delete_action_with_options helmapps_resource c.ns name opts
  fake_action (delete_collection opts list_opts) =
      delete_collection_action helmapps_resource c.ns (s.delete_restrictions list_opts)
  fake_action (patch name patch_type data_ opts subs) =
      patch_subresource_action helmapps_resource c.ns name patch_type data_ subs

  abbrev fake_app : Method → Action W (Option HelmApp × Option GoError)
  fake_app method = call (s.invokes (fake_action method)) >>= as_app

  unfoldable pub fake_get : String → String → Action W (Option HelmApp × Option GoError)
  fake_get name options = fake_app (get name options)

  unfoldable pub fake_create : HelmApp → String → Action W (Option HelmApp × Option GoError)
  fake_create app opts = fake_app (create app opts)

  unfoldable pub fake_update : HelmApp → String → Action W (Option HelmApp × Option GoError)
  fake_update app opts = fake_app (update app opts)

  unfoldable pub fake_update_status : HelmApp → String → Action W (Option HelmApp × Option GoError)
  fake_update_status app opts = fake_app (update_status app opts)

  unfoldable pub fake_patch :
      String → String → String → String → List String → Action W (Option HelmApp × Option GoError)
  fake_patch name patch_type data_ opts subs = fake_app (patch name patch_type data_ opts subs)

  -- `label == nil` stands for every HelmApp.
  abbrev pub label_or_everything : ListOptions → s.Selector
  label_or_everything opts = elim (s.extract_label opts) [
    | some label ↦ label
    | none ↦ s.everything
  ]

  -- What `List` makes of the answer.
  unfoldable pub filter_answer :
      ListOptions → Option Object × Option GoError → Action W (Option HelmAppList × Option GoError)
  unfolding ◌>>=◌
  filter_answer opts (none, e) = pure (none, e)
  filter_answer opts (some (list_object l), e) =
      keep_matching (s.matches (label_or_everything opts)) l.items >>= λ kept.
      pure (some (record { list_meta = l.list_meta; items = kept }), e)
  filter_answer opts (some _, e) = panic

  unfoldable pub fake_list : ListOptions → Action W (Option HelmAppList × Option GoError)
  unfolding filter_answer
  fake_list opts = call (s.invokes (fake_action (list opts))) >>= filter_answer opts

  unfoldable pub fake_watch : ListOptions → Action W (Option s.Watcher × Option GoError)
  fake_watch opts = call (s.invokes_watch (fake_action (watch opts)))

  unfoldable pub fake_delete : String → String → Action W (Option GoError)
  fake_delete name opts =
      call (s.invokes (fake_action (delete name opts))) >>= λ answer. pure answer.1

  unfoldable pub fake_delete_collection : String → ListOptions → Action W (Option GoError)
  fake_delete_collection opts list_opts =
      call (s.invokes (fake_action (delete_collection opts list_opts))) >>= λ answer. pure answer.1
