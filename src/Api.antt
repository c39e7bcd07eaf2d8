-- ===== src/Api.antt =====
-- The types of api/v1alpha1: what the Catalog Items and the objects that they share hold. A pointer
-- is an `Option`, `omitempty` strings are empty texts, a `map` is an association list.
pub mod Conditions
pub mod Items
use inari_operator.Base.{ℕ, Bool, true, false, Option, none, some, List}
use inari_operator.Text.{Str}

-- `metav1.ConditionStatus`.
pub data ConditionStatus : Type 0 where
  true_status false_status unknown_status : ConditionStatus

-- `metav1.Condition`; `lastTransitionTime` is the library's own.
pub record Condition : Type 0 where
  pub type : Str
  pub status : ConditionStatus
  pub observed_generation : ℕ
  pub reason : Str
  pub message : Str

-- The part of `metav1.ObjectMeta` that the operator reads or writes.
pub record ObjectMeta : Type 0 where
  pub name : Str
  pub namespace : Str
  pub generation : ℕ
  pub deletion_timestamp : Option ℕ
  pub finalizers : List Str

-- `types.NamespacedName`.
pub record Key : Type 0 where
  pub namespace : Str
  pub name : Str

pub record TenantReference : Type 0 where
  pub tenant_id : Str
  pub namespace : Str
  pub impersonate_service_account : Str

-- A custom resource: its metadata, spec and status.
pub record Resource (S T : Type 0) : Type 0 where
  pub metadata : ObjectMeta
  pub spec : S
  pub status : T

module _ {S T : Type 0} where
  abbrev pub key_of : Resource S T → Key
  key_of r = record { namespace = r.metadata.namespace; name = r.metadata.name }

  -- `!obj.DeletionTimestamp.IsZero()`.
  abbrev pub is_deleting : Resource S T → Bool
  is_deleting r = elim r.metadata.deletion_timestamp [ none ↦ false | some t ↦ true ]
