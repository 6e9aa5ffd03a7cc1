-- ===== src/Copies/NamespacedConfig/ClusterProviderConfigTypes.antt =====
-- apis/namespaced/v1beta1/types.go: the structs below ClusterProviderConfig, by their fields.
use provider_upjet_unifi.Base.{[], ◌∷◌}
use provider_upjet_unifi.Copies.{flat, slice, struct, library, struct_of, FieldTypes}
use provider_upjet_unifi.Copies.NamespacedConfig.ProviderConfigTypes.{
  provider_config_spec, provider_config_status,
}

abbrev pub cluster_provider_config : FieldTypes
cluster_provider_config = struct_of (
    (flat, "TypeMeta")
    ∷ (library "metav1.ObjectMeta", "ObjectMeta")
    ∷ (struct provider_config_spec, "Spec")
    ∷ (struct provider_config_status, "Status")
    ∷ [])

abbrev pub cluster_provider_config_list : FieldTypes
cluster_provider_config_list = struct_of (
    (flat, "TypeMeta")
    ∷ (library "metav1.ListMeta", "ListMeta")
    ∷ (slice (struct cluster_provider_config), "Items")
    ∷ [])
