-- ===== src/Informers/HelmApps.antt =====
-- The informer of HelmApps, and the ways to it through a shared informer factory: below
-- apis/client/informers/externalversions, generic.go, operator/interface.go, and interface.go and
-- helmapp.go of operator/v1alpha1. And the listers: apis/client/listers/operator/v1alpha1/helmapp.go.
pub mod Shared
pub mod Listers
use pluma_opeartor.Base.{ℕ, String, Bool, ◌&&◌, Option, none, some, List, ◌==◌, ◌<>◌, if◌then◌else◌}
use pluma_opeartor.Effects.{GoError, plain, Result, ok, err}
use pluma_opeartor.Client.{ListOptions, HelmApps, new_helm_apps, Method, list, watch}
use pluma_opeartor.Client.Fake.{Resource, helmapps_resource}
use pluma_opeartor.Informers.{Cache, Factory, informer_for}

-- A call of a clientset's client for the HelmApps of a namespace.
pub record ClientCall (c : Cache) : Type 0 where
  pub client : c.Client
  pub helm_apps : HelmApps
  pub method : Method

-- `cache.ListWatch`: its functions, by the call that they make.
pub record ListWatch (c : Cache) : Type 0 where
  pub list_func : ListOptions → ClientCall c
  pub watch_func : ListOptions → ClientCall c

-- What the informer of HelmApps takes from client-go. A tweak sets fields of the options.
pub record SharedCache (c : Cache) : Type 1 where
  pub Indexers : Type 0
  pub Indexer : Type 0
  pub namespace_indexers : Indexers
  pub tweak : c.Tweak → ListOptions → ListOptions
  pub new_shared_index_informer : ListWatch c → ℕ → Indexers → c.Informer
  pub get_indexer : c.Informer → Indexer

module _ {c : Cache} (s : SharedCache c) where
  abbrev tweaked : Option c.Tweak → ListOptions → ListOptions
  tweaked none options = options
  tweaked (some tweak) options = s.tweak tweak options

  -- The list and the watch of the informer, one call of the client each.
  unfoldable pub list_watch : c.Client → String → Option c.Tweak → ListWatch c
  list_watch client namespace tweak = record {
    list_func = λ options. record {
      client = client;
      helm_apps = new_helm_apps namespace;
      method = list (tweaked tweak options);
    };
    watch_func = λ options. record {
      client = client;
      helm_apps = new_helm_apps namespace;
      method = watch (tweaked tweak options);
    };
  }

  unfoldable pub new_filtered_informer :
      c.Client → String → ℕ → s.Indexers → Option c.Tweak → c.Informer
  unfolding list_watch
  new_filtered_informer client namespace resync indexers tweak =
      s.new_shared_index_informer (list_watch client namespace tweak) resync indexers

  unfoldable pub new_informer : c.Client → String → ℕ → s.Indexers → c.Informer
  unfolding new_filtered_informer
  new_informer client namespace resync indexers =
      new_filtered_informer client namespace resync indexers none

-- `helmAppInformer`, and `version` and `group`, which have the same fields. The factory is passed on.
pub record Access (c : Cache) : Type 0 where
  pub tweak_list_options : Option c.Tweak
  pub namespace : String

module _ {c : Cache} where
  -- `f.Operator()`, `V1alpha1()` and `HelmApps()`
  abbrev pub operator : Factory c → Access c
  operator f = record { tweak_list_options = f.tweak_list_options; namespace = f.namespace }

  abbrev pub v1alpha1 : Access c → Access c
  v1alpha1 group = record {
    tweak_list_options = group.tweak_list_options;
    namespace = group.namespace;
  }

  abbrev pub helm_apps_of : Access c → Access c
  helm_apps_of version = record {
    tweak_list_options = version.tweak_list_options;
    namespace = version.namespace;
  }

-- An informer and the resource that its generic lister names in errors.
pub record GenericInformer (c : Cache) : Type 0 where
  pub informer : c.Informer
  pub group : String
  pub resource : String

abbrev pub same_resource : Resource → Resource → Bool
same_resource r t = (r.group == t.group) && (r.version == t.version) && (r.resource == t.resource)

abbrev pub no_informer : String → GoError
no_informer shown = record { kind = plain; message = "no informer found for " <> shown }

module _ {c : Cache} (s : SharedCache c) where
  unfoldable pub default_informer : Access c → c.Client → ℕ → c.Informer
  unfolding new_filtered_informer
  default_informer f client resync =
      new_filtered_informer s client f.namespace resync s.namespace_indexers f.tweak_list_options

  -- `Informer()`: the factory's informer of the type.
  unfoldable pub informer : Access c → Factory c → c.Informer × Factory c
  informer a f = informer_for "*v1alpha1.HelmApp" (default_informer a) f

  -- `Lister()`, over the index of the informer
  unfoldable pub lister : Access c → Factory c → s.Indexer × Factory c
  lister a f = let (i, f') = informer a f in (s.get_indexer i, f')

  -- `show` is the `String` method of a resource.
  unfoldable pub for_resource :
      (Resource → String) → Resource → Factory c → Result (GenericInformer c) × Factory c
  for_resource show resource f =
      if same_resource resource helmapps_resource
      then (let (i, f') = informer (helm_apps_of (v1alpha1 (operator f))) f in
          (ok (record { informer = i; group = resource.group; resource = resource.resource }), f'))
      else (err (no_informer (show resource)), f)

  abbrev pub generic_lister : GenericInformer c → s.Indexer × String × String
  generic_lister g = (s.get_indexer g.informer, g.group, g.resource)
