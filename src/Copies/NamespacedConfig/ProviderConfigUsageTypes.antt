-- ===== src/Copies/NamespacedConfig/ProviderConfigUsageTypes.antt =====
-- apis/namespaced/v1beta1/types.go: the structs below ProviderConfigUsage, by their fields.
use provider_upjet_unifi.Base.{[], ◌∷◌}
use provider_upjet_unifi.Copies.{flat, slice, struct, library, struct_of, FieldTypes}

abbrev pub provider_config_usage : FieldTypes
provider_config_usage = struct_of (
    (flat, "TypeMeta")
    ∷ (library "metav1.ObjectMeta", "ObjectMeta")
    ∷ (flat, "TypedProviderConfigUsage")
    ∷ [])

abbrev pub provider_config_usage_list : FieldTypes
provider_config_usage_list = struct_of (
    (flat, "TypeMeta")
    ∷ (library "metav1.ListMeta", "ListMeta")
    ∷ (slice (struct provider_config_usage), "Items")
    ∷ [])
