-- ===== src/Api.antt =====
-- The HelmApp resource: apis/operator/v1alpha1/helmapp_types.go and helmapp.pb.go. A pointer that
-- may be nil is an `Option`; the protobuf bookkeeping fields are left out.
pub mod Getters
pub mod Json
pub mod PhaseNames
pub mod Reset
use pluma_opeartor.Base.{ℕ, String, Bool, Option, none, some, List}
use pluma_opeartor.Base.Dict.{Dict}
use pluma_opeartor.Values.{Fields}

pub data Phase : Type 0 where
  unknown reconciling succeeded failed deleting : Phase

pub record HelmRepo : Type 0 where
  pub name : String
  pub url : String

pub record HelmComponent : Type 0 where
  pub name : String
  pub chart : String
  pub version : String
  pub component_values : Option Fields
  pub repo : Option HelmRepo
  pub ignore_global_values : Bool

pub record HelmAppSpec : Type 0 where
  pub components : List HelmComponent
  pub global_values : Option Fields
  pub repo : Option HelmRepo

pub record HelmResourceStatus : Type 0 where
  pub api_version : String
  pub kind : String
  pub name : String
  pub namespace : String

-- An int32 is its bit pattern.
pub record HelmComponentStatus : Type 0 where
  pub name : String
  pub status : String
  pub message : String
  pub version : String
  pub resources : List HelmResourceStatus
  pub resources_total : ℕ

pub record HelmAppStatus : Type 0 where
  pub phase : Phase
  pub components : List HelmComponentStatus

-- The fields of metav1.ObjectMeta that the operator reads or writes.
pub record ObjectMeta : Type 0 where
  pub name : String
  pub namespace : String
  pub labels : Option (Dict String)
  pub finalizers : List String
  pub deletion_timestamp : Option ℕ

pub record HelmApp : Type 0 where
  pub meta : ObjectMeta
  pub spec : Option HelmAppSpec
  pub status : Option HelmAppStatus
