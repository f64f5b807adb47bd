-- ===== src/Istio/Resource.antt =====
-- The parts of an IstioOperator that internal/istio/iop.go reads, and what it calls in other
-- packages to read them. A pointer that may be nil is an `Option`.
use pluma_opeartor.Base.{ℕ, String, Bool, false, Option, none, some, List}
use pluma_opeartor.Values.{Any, Fields, lookup}
use pluma_opeartor.Effects.{Result}
use pluma_opeartor.Api.{ObjectMeta}

-- `affinity` and `resources` point to messages, by their addresses.
pub record K8s : Type 0 where
  pub affinity : Option ℕ
  pub resources : Option ℕ

-- `enabled` is a wrapped bool, nil if it is not given.
pub record ComponentSpec : Type 0 where
  pub enabled : Option Bool
  pub k8s : Option K8s

pub record GatewaySpec : Type 0 where
  pub enabled : Option Bool
  pub name : String
  pub k8s : Option K8s

pub record Components : Type 0 where
  pub base : Option ComponentSpec
  pub pilot : Option ComponentSpec
  pub cni : Option ComponentSpec
  pub ztunnel : Option ComponentSpec
  pub ingress_gateways : List GatewaySpec
  pub egress_gateways : List GatewaySpec

pub record IopSpec : Type 0 where
  pub profile : String
  pub tag : Option Any
  pub mesh_config : Option Fields
  pub values : Option Fields
  pub components : Option Components

pub record IstioOperator : Type 0 where
  pub meta : ObjectMeta
  pub spec : Option IopSpec

-- `GetValue()` of a wrapped bool
abbrev pub get_value : Option Bool → Bool
get_value none = false
get_value (some b) = b

-- `GetEnabled().GetValue()` of a component that may be nil
abbrev pub is_enabled : Option ComponentSpec → Bool
is_enabled none = false
is_enabled (some component) = get_value component.enabled

-- `GetK8S()` of a component that may be nil
abbrev pub get_k8s : Option ComponentSpec → Option K8s
get_k8s none = none
get_k8s (some component) = component.k8s

-- `GetFields()[k]` of a protobuf `Struct` that may be nil
abbrev pub get_field : Option Fields → String → Option Any
get_field none k = none
get_field (some m) k = lookup k m

-- What the conversion calls in other packages: accessors of protobuf values, `AsMap` and
-- `NewStruct`, JSON, and the reading and merging of profiles.
pub record Library : Type 0 where
  pub get_string_value : Option Any → String
  pub get_struct_value : Any → Option Fields
  pub get_bool_value : Any → Bool
  pub get_number_value : Any → ℕ
  pub as_map : Option Fields → Fields
  pub new_struct : Fields → Result Fields
  pub marshal : Any → Result String
  -- the decoded map is nil for the text `null`
  pub unmarshal : String → Result (Option Fields)
  pub read_file : String → Result String
  pub unmarshal_iop : String → Result IstioOperator
  -- `mergo.Merge(dst, src)`: what `dst` is afterwards
  pub merge : IstioOperator → IstioOperator → Result IstioOperator
