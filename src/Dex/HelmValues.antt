-- ===== src/Dex/HelmValues.antt =====
-- `dexHelmValues` of internal/controller/clusterdex_application.go. A map is written in the order of
-- the source; its order means nothing.
use inari_operator.Base.{
  pos, ℕ, String, true, false, Option, none, some, List, [], ◌∷◌, ◌++◌, if◌then◌else◌,
}
use inari_operator.Text.{Str, bytes, is_empty}
use inari_operator.Api.Items.{
  ClusterDex, ClusterDexDex, ClusterDexRoute, ClusterDexGatewayRef, SecretReference,
}
use inari_operator.Cluster.Errors.{Result, ok, err, failure}
use inari_operator.Cluster.Children.{
  Value, Fields, bool, num, text, seq, seq_of, object, object_of, list_of, field, nil,
}
use inari_operator.Dex.Image.{Split, split, refused, split_image_ref}
use inari_operator.Dex.Settings.{dex_application_name, dex_service_port}

abbrev Entries : Type 0
Entries = List (String × Value)

-- `m[k] = v` where `v` is not the empty text.
abbrev optional : String → Str → Entries
optional k v = if is_empty v then [] else (k, text v) ∷ []

abbrev port_rule : ℕ → String → Value
port_rule port protocol =
    object_of (("port", num (pos port)) ∷ ("protocol", text (bytes protocol)) ∷ [])

-- DNS in kube-system, and port 443 everywhere.
pub egress_rules : Value
egress_rules = list_of (
    object_of (
      (
        "to",
        list_of (
            object_of (
              (
                "namespaceSelector",
                object_of (
                    (
                      "matchLabels",
                      object_of (("kubernetes.io/metadata.name", text (bytes "kube-system")) ∷ []),
                    )
                    ∷ []),
              )
              ∷ [])
            ∷ []),
      )
      ∷ ("ports", list_of (port_rule 53 "UDP" ∷ port_rule 53 "TCP" ∷ []))
      ∷ [])
    ∷ object_of (
        (
          "to",
          list_of (
              object_of (("ipBlock", object_of (("cidr", text (bytes "0.0.0.0/0")) ∷ [])) ∷ [])
              ∷ []),
        )
        ∷ ("ports", list_of (port_rule 443 "TCP" ∷ []))
        ∷ [])
    ∷ [])

pod_security_context : Value
pod_security_context = object_of (
    ("runAsNonRoot", bool true)
    ∷ ("runAsUser", num (pos 1001))
    ∷ ("runAsGroup", num (pos 1001))
    ∷ ("fsGroup", num (pos 1001))
    ∷ ("seccompProfile", object_of (("type", text (bytes "RuntimeDefault")) ∷ []))
    ∷ [])

security_context : Value
security_context = object_of (
    ("allowPrivilegeEscalation", bool false)
    ∷ ("readOnlyRootFilesystem", bool true)
    ∷ ("capabilities", object_of (("drop", list_of (text (bytes "ALL") ∷ [])) ∷ []))
    ∷ [])

resources : Value
resources = object_of (
    ("requests", object_of (("cpu", text (bytes "50m")) ∷ ("memory", text (bytes "64Mi")) ∷ []))
    ∷ ("limits", object_of (("memory", text (bytes "128Mi")) ∷ []))
    ∷ [])

fixed_values : Str → SecretReference → Entries
unfolding egress_rules pod_security_context security_context resources
fixed_values name config =
    ("fullnameOverride", text name)
    ∷ (
      "commonLabels",
      object_of (("app.kubernetes.io/part-of", text (bytes "inari-platform")) ∷ []),
    )
    ∷ ("configSecret", object_of (("create", bool false) ∷ ("name", text config.name) ∷ []))
    ∷ (
      "service",
      object_of (
          (
            "ports",
            object_of (("http", object_of (("port", num (pos dex_service_port)) ∷ [])) ∷ []),
          )
          ∷ []),
    )
    ∷ ("networkPolicy", object_of (("enabled", bool true) ∷ ("egressRules", egress_rules) ∷ []))
    ∷ (
      "podDisruptionBudget",
      object_of (("enabled", bool true) ∷ ("minAvailable", num (pos 1)) ∷ []),
    )
    ∷ ("podSecurityContext", pod_security_context)
    ∷ ("securityContext", security_context)
    ∷ ("resources", resources)
    ∷ []

image_values : Split → Result Entries
image_values (split repository tag) =
    ok (("image", object_of (("repository", text repository) ∷ ("tag", text tag) ∷ [])) ∷ [])
image_values (refused message) = err (failure message)

-- The entry "image": none where the image is not set.
image_entry : Str → Result Entries
unfolding image_values
image_entry image = if is_empty image then ok [] else image_values (split_image_ref image)

parent_ref : ClusterDexGatewayRef → Value
parent_ref ref = object_of (
    ("name", text ref.name)
    ∷ (optional "namespace" ref.namespace ++ optional "sectionName" ref.section_name))

string_fields : List (Str × Str) → Fields
string_fields [] = nil
string_fields ((k, v) ∷ rest) = field k (text v) (string_fields rest)

hostnames_entry : List Str → Entries
hostnames_entry [] = []
hostnames_entry (h ∷ hs) = ("hostnames", seq (seq_of text (h ∷ hs))) ∷ []

annotations_entry : List (Str × Str) → Entries
unfolding string_fields
annotations_entry [] = []
annotations_entry (a ∷ rest) = ("annotations", object (string_fields (a ∷ rest))) ∷ []

route_entry : Option ClusterDexRoute → Entries
unfolding parent_ref hostnames_entry annotations_entry
route_entry none = []
route_entry (some route) =
    (
      "httpRoute",
      object_of (
          ("enabled", bool true)
          ∷ ("parentRefs", list_of (parent_ref route.gateway_ref ∷ []))
          ∷ (hostnames_entry route.hostnames ++ annotations_entry route.annotations)),
    )
    ∷ []

with_image : Entries → Entries → Result Entries → Result Value
with_image before after (err e) = err e
with_image before after (ok image) = ok (object_of (before ++ (image ++ after)))

module _ (sum256 : Str → List ℕ) where
  values_for : ClusterDex → ClusterDexDex → Option SecretReference → Result Value
  unfolding fixed_values image_entry route_entry with_image
  values_for cr dex none = err (failure (bytes "spec.dex.configSecretRef is required"))
  values_for cr dex (some config) =
      with_image (fixed_values (dex_application_name sum256 cr) config) (route_entry dex.route)
        (image_entry dex.image)

  values_of : ClusterDex → Option ClusterDexDex → Result Value
  unfolding values_for
  values_of cr none = err (failure (bytes "spec.dex.configSecretRef is required"))
  values_of cr (some dex) = values_for cr dex dex.config_secret_ref

  -- `dexHelmValues`.
  unfoldable pub dex_helm_values : ClusterDex → Result Value
  unfolding values_of
  dex_helm_values cr = values_of cr cr.spec.dex
