-- ===== src/Cluster/Children.antt =====
-- The objects that the reconcilers write: typed ones and `unstructured.Unstructured`.
pub mod Labelled
use inari_operator.Base.{ℤ, ℕ, String, Bool, Option, none, some, List, [], ◌∷◌, ◌==◌, if◌then◌else◌}
use inari_operator.Text.{Str, bytes, str_eq}
use inari_operator.Api.{Key}

-- The values of `map[string]any`.
mutual
  pub data Value : Type 0 where
    bool : Bool → Value
    num : ℤ → Value
    text : Str → Value
    seq : Values → Value
    object : Fields → Value

  pub data Values : Type 0 where
    end : Values
    item : Value → Values → Values

  pub data Fields : Type 0 where
    nil : Fields
    field : Str → Value → Fields → Fields

abbrev pub seq_of {ℓ} : {A : Type ℓ} → (A → Value) → List A → Values
seq_of f [] = end
seq_of f (x ∷ xs) = item (f x) (seq_of f xs)

-- A `map[string]any` with the keys of the source.
unfoldable pub fields_of : List (String × Value) → Fields
fields_of [] = nil
fields_of ((k, v) ∷ rest) = field (bytes k) v (fields_of rest)

abbrev pub object_of : List (String × Value) → Value
object_of entries = object (fields_of entries)

abbrev pub list_of : List Value → Value
list_of vs = seq (seq_of (λ v. v) vs)

-- A `map[string]string`: `m[k] = v` and `m[k]`.
abbrev pub Labels : Type 0
Labels = List (Str × Str)

unfoldable pub set_label : Str → Str → Labels → Labels
set_label k v [] = (k, v) ∷ []
set_label k v ((j, w) ∷ m) = if j == k then (k, v) ∷ m else (j, w) ∷ set_label k v m

unfoldable pub get_label : Str → Labels → Option Str
get_label k [] = none
get_label k ((j, v) ∷ m) = if j == k then some v else get_label k m

pub data ChildKind : Type 0 where
  application app_project cluster_issuer dns_endpoint config_map secret namespace role_binding
        network_policy resource_quota :
      ChildKind

-- `rbacv1.Subject`.
pub record Subject : Type 0 where
  pub kind : Str
  pub api_group : Str
  pub name : Str
  pub namespace : Str

-- What the kinds hold beside their metadata; `no_content` is an object as it is built.
pub data Content : Type 0 where
  no_content : Content
  -- `Object["spec"]`
  spec : Value → Content
  -- `Data` of a ConfigMap
  config : Labels → Content
  -- `Type` and `StringData` of a Secret
  credentials : Str → Labels → Content
  -- `RoleRef.Name` and `Subjects`
  binding : Str → List Subject → Content
  -- `PolicyTypes`, with an empty `PodSelector`
  policy : List Str → Content
  -- `Spec.Hard`, quantities as they are parsed
  quota : List (Str × Str) → Content

pub record Child : Type 0 where
  pub kind : ChildKind
  pub key : Key
  pub labels : Labels
  -- the controller reference, by the owner's key
  pub owner : Option Key
  pub content : Content

-- An object as it is named before `CreateOrUpdate`.
abbrev pub named : ChildKind → Key → Child
named kind key = record { kind = kind; key = key; labels = []; owner = none; content = no_content }

abbrev pub with_label : Str → Str → Child → Child
with_label k v child = record child { labels = set_label k v child.labels }
