-- ===== src/Informers.antt =====
-- The shared informer factory: apis/client/informers/externalversions/factory.go. Each method holds
-- the factory's lock from its start to its end, so a method is one step.
pub mod HelmApps
pub mod Once
use pluma_opeartor.Base.{
  ℕ, String, Bool, true, false, Option, none, some, List, [], ◌∷◌, ◌++◌, if◌then◌else◌,
}
use pluma_opeartor.Base.Dict
use pluma_opeartor.Base.Dict.{Dict}

-- What the factory takes from client-go: clients, list filters and informers. `wait_for_cache_sync`
-- is `cache.WaitForCacheSync` on an informer's `HasSynced`.
pub record Cache : Type 1 where
  pub Client : Type 0
  pub Tweak : Type 0
  pub Informer : Type 0
  pub wait_for_cache_sync : Informer → Bool

-- A `reflect.Type` is its name.
pub record Factory (c : Cache) : Type 0 where
  pub client : c.Client
  pub namespace : String
  pub tweak_list_options : Option c.Tweak
  pub default_resync : ℕ
  pub custom_resync : Dict ℕ
  pub informers : Dict c.Informer
  pub started_informers : Dict Bool

-- `m[k]` of a map of Booleans: false where there is no entry
abbrev pub flag : Option Bool → Bool
flag none = false
flag (some b) = b

-- An option of the constructor, by the function that makes it.
pub data SharedInformerOption (c : Cache) : Type 0 where
  with_custom_resync_config : Dict ℕ → SharedInformerOption c
  with_tweak_list_options : c.Tweak → SharedInformerOption c
  with_namespace : String → SharedInformerOption c

-- `for k, v := range resyncConfig { factory.customResync[k] = v }`
unfoldable pub set_all : Dict ℕ → Dict ℕ → Dict ℕ
set_all [] resync = resync
set_all ((k, v) ∷ config) resync = set_all config (Dict.insert k v resync)

module _ {c : Cache} where
  unfoldable pub apply_option : SharedInformerOption c → Factory c → Factory c
  apply_option (with_custom_resync_config config) f = record f {
    custom_resync = set_all config f.custom_resync;
  }
  apply_option (with_tweak_list_options tweak) f = record f { tweak_list_options = some tweak }
  apply_option (with_namespace namespace) f = record f { namespace = namespace }

  unfoldable pub apply_options : List (SharedInformerOption c) → Factory c → Factory c
  apply_options [] f = f
  apply_options (option ∷ options) f = apply_options options (apply_option option f)

  unfoldable pub new_factory_with_options : c.Client → ℕ → List (SharedInformerOption c) → Factory c
  new_factory_with_options client default_resync options = apply_options options (record {
    client = client;
    namespace = "";
    tweak_list_options = none;
    default_resync = default_resync;
    custom_resync = [];
    informers = [];
    started_informers = [];
  })

  unfoldable pub new_factory : c.Client → ℕ → Factory c
  new_factory client default_resync = new_factory_with_options client default_resync []

  unfoldable pub new_filtered_factory : c.Client → ℕ → String → c.Tweak → Factory c
  new_filtered_factory client default_resync namespace tweak =
      new_factory_with_options client default_resync
        (with_namespace namespace ∷ with_tweak_list_options tweak ∷ [])

  -- The body of the loop of `Start`: the informer that is set running, if it is, and the factory.
  unfoldable pub start_one : String → c.Informer → Factory c → Dict c.Informer × Factory c
  start_one t informer f = if flag (Dict.lookup t f.started_informers) then ([], f) else (
    (t, informer) ∷ [],
    record f { started_informers = Dict.insert t true f.started_informers },
  )

  -- `Start`, with the entries of the map in the order in which the loop meets them.
  unfoldable pub start : Dict c.Informer → Factory c → Dict c.Informer × Factory c
  start [] f = ([], f)
  start ((t, informer) ∷ entries) f =
      let (first, f') = start_one t informer f in
      let (rest, f'') = start entries f' in (first ++ rest, f'')

  -- The started informers of `WaitForCacheSync`, and for each whether its cache was synced.
  unfoldable pub synced : Dict c.Informer → Factory c → Dict Bool
  synced [] f = []
  synced ((t, informer) ∷ entries) f =
      if flag (Dict.lookup t f.started_informers)
      then (t, c.wait_for_cache_sync informer) ∷ synced entries f
      else synced entries f

  unfoldable pub wait_for_cache_sync : Factory c → Dict Bool
  wait_for_cache_sync f = synced f.informers f

  unfoldable pub resync_period : String → Factory c → ℕ
  resync_period t f = elim (Dict.lookup t f.custom_resync) [
    | some period ↦ period
    | none ↦ f.default_resync
  ]

  unfoldable pub informer_for :
      String → (c.Client → ℕ → c.Informer) → Factory c → c.Informer × Factory c
  informer_for t new_func f = elim (Dict.lookup t f.informers) [
    | some informer ↦ (informer, f)
    | none ↦
        let informer = new_func f.client (resync_period t f) in
        (informer, record f { informers = Dict.insert t informer f.informers })
  ]
