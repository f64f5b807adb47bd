-- ===== src/Scheme.antt =====
-- The registration of the resource types: groupversion_info.go and the `init` of helmapp_types.go
-- in apis/operator/v1alpha1, and scheme/register.go and fake/register.go below
-- apis/client/clientset/versioned.
pub mod Known
use pluma_opeartor.Base.{String, Option, List, [], ◌∷◌}
use pluma_opeartor.Effects.{GoError, Action, pure, panic, call, ◌>>=◌, if_error}

pub record GroupVersion : Type 0 where
  pub group : String
  pub version : String

pub record GroupResource : Type 0 where
  pub group : String
  pub resource : String

abbrev pub group_version : GroupVersion
group_version = record { group = "operator.pluma.io"; version = "v1alpha1" }

-- `Resource`
abbrev pub resource : String → GroupResource
resource name = record { group = group_version.group; resource = name }

-- The types that the package registers.
pub data ObjectType : Type 0 where
  helm_app_type helm_app_list_type : ObjectType

-- What the packages take from apimachinery and from controller-runtime. A `Scheme` and a `Builder`
-- are pointers, and the world holds what they point to. `add_to_scheme` is the method of a `Builder`,
-- and `run` the `AddToScheme` of a `runtime.SchemeBuilder`, which is a slice of functions.
pub record SchemeLibrary (W : Type 0) : Type 1 where
  pub Scheme : Type 0
  pub Builder : Type 0
  pub new_scheme : W → Scheme × W
  pub new_builder : GroupVersion → W → Builder × W
  pub register : Builder → List ObjectType → W → Unit {0} × W
  pub add_to_scheme : Builder → Scheme → Action W (Option GoError)
  pub run : List (Scheme → Action W (Option GoError)) → Scheme → Action W (Option GoError)
  pub add_to_group_version : Scheme → GroupVersion → Action W (Unit {0})

abbrev pub meta_version : GroupVersion
meta_version = record { group = ""; version = "v1" }

abbrev pub registered_types : List ObjectType
registered_types = helm_app_type ∷ helm_app_list_type ∷ []

module _ {W : Type 0} (l : SchemeLibrary W) where
  -- The package v1alpha1: its variable `SchemeBuilder`, and `init`.
  unfoldable pub resource_package : Action W l.Builder
  resource_package = call (l.new_builder group_version) >>= λ scheme_builder.
      call (l.register scheme_builder registered_types) >>= λ registered. pure scheme_builder

  -- `v1alpha1.AddToScheme`, a method bound to the pointer
  abbrev pub add_to_scheme : l.Builder → l.Scheme → Action W (Option GoError)
  add_to_scheme scheme_builder = l.add_to_scheme scheme_builder

  abbrev pub local_scheme_builder : l.Builder → List (l.Scheme → Action W (Option GoError))
  local_scheme_builder scheme_builder = add_to_scheme scheme_builder ∷ []

  -- What both packages do with their new scheme in `init`.
  unfoldable pub init_scheme : (l.Scheme → Action W (Option GoError)) → l.Scheme → Action W l.Scheme
  init_scheme add scheme = l.add_to_group_version scheme meta_version >>= λ added.
      add scheme >>= λ e. if_error e (λ x. panic) (pure scheme)

  -- The package of the clients.
  unfoldable pub clientset_scheme : l.Builder → Action W l.Scheme
  unfolding init_scheme
  clientset_scheme scheme_builder =
      call l.new_scheme >>= init_scheme (l.run (local_scheme_builder scheme_builder))

  abbrev pub fake_local_scheme_builder : l.Builder → List (l.Scheme → Action W (Option GoError))
  fake_local_scheme_builder scheme_builder = add_to_scheme scheme_builder ∷ []

  -- The package of the fake clients.
  unfoldable pub fake_scheme : l.Builder → Action W l.Scheme
  unfolding init_scheme
  fake_scheme scheme_builder =
      call l.new_scheme >>= init_scheme (l.run (fake_local_scheme_builder scheme_builder))

  -- The start of a process that imports all three packages, in the order of their imports.
  unfoldable pub packages : Action W (l.Scheme × l.Scheme)
  unfolding resource_package clientset_scheme fake_scheme
  packages = resource_package >>= λ scheme_builder. clientset_scheme scheme_builder >>= λ scheme.
      fake_scheme scheme_builder >>= λ fake. pure (scheme, fake)
