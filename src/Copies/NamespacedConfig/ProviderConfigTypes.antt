-- ===== src/Copies/NamespacedConfig/ProviderConfigTypes.antt =====
-- apis/namespaced/v1beta1/types.go: the structs below ProviderConfig, by their fields.
use provider_upjet_unifi.Base.{[], ◌∷◌}
use provider_upjet_unifi.Copies.{flat, slice, struct, library, struct_of, FieldTypes}

abbrev pub provider_credentials : FieldTypes
provider_credentials = struct_of (
    (flat, "Source") ∷ (library "xpv2.CommonCredentialSelectors", "CommonCredentialSelectors") ∷ [])

abbrev pub provider_config_spec : FieldTypes
provider_config_spec = struct_of ((struct provider_credentials, "Credentials") ∷ [])

abbrev pub provider_config_status : FieldTypes
provider_config_status =
    struct_of ((library "xpv2.ProviderConfigStatus", "ProviderConfigStatus") ∷ [])

abbrev pub provider_config : FieldTypes
provider_config = struct_of (
    (flat, "TypeMeta")
    ∷ (library "metav1.ObjectMeta", "ObjectMeta")
    ∷ (struct provider_config_spec, "Spec")
    ∷ (struct provider_config_status, "Status")
    ∷ [])

abbrev pub provider_config_list : FieldTypes
provider_config_list = struct_of (
    (flat, "TypeMeta")
    ∷ (library "metav1.ListMeta", "ListMeta")
    ∷ (slice (struct provider_config), "Items")
    ∷ [])
