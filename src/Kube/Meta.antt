-- ===== src/Kube/Meta.antt =====
-- Object metadata of Kubernetes, as far as the operator uses it.
use rhbk_operator.Prelude.{ℕ, String, Bool, Option, none, List, []}
use rhbk_operator.Prelude.Maps.{Map}

-- A Go `int32`, as its two's complement bit pattern, a number below 2 ^ 32.
abbrev pub Int32 : Type 0
Int32 = ℕ

-- client.ObjectKey
pub record Key : Type 0 where
  pub namespace : String
  pub name : String

pub record OwnerReference : Type 0 where
  pub kind : String
  pub name : String
  pub uid : String
  pub controller : Bool

-- metav1.ObjectMeta: `none` is the nil map; a zero deletion timestamp is `none`.
pub record Meta : Type 0 where
  pub name : String
  pub namespace : String
  pub uid : String
  pub labels : Option (Map String)
  pub annotations : Option (Map String)
  pub resource_version : String
  pub finalizers : List String
  pub deletion_timestamp : Option ℕ
  pub owner_references : List OwnerReference

-- The object literal that a `CreateOrUpdate` method starts from: a name, a namespace, zero values.
abbrev pub named : String → String → Meta
named name namespace = record {
  name = name;
  namespace = namespace;
  uid = "";
  labels = none;
  annotations = none;
  resource_version = "";
  finalizers = [];
  deletion_timestamp = none;
  owner_references = [];
}

abbrev pub key_of : Meta → Key
key_of m = record { namespace = m.namespace; name = m.name }
