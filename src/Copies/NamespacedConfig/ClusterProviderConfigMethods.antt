-- ===== src/Copies/NamespacedConfig/ClusterProviderConfigMethods.antt =====
-- apis/namespaced/v1beta1/zz_generated.deepcopy.go: the DeepCopyInto methods below ClusterProviderConfig.
use provider_upjet_unifi.Base.{[], ◌∷◌}
use provider_upjet_unifi.Copies.{assigns, calls, makes_items, own, of_library, method_of, Method}
use provider_upjet_unifi.Copies.NamespacedConfig.ProviderConfigMethods.{
  copy_provider_config_spec, copy_provider_config_status,
}

abbrev pub copy_cluster_provider_config : Method
copy_cluster_provider_config = method_of (
    (assigns, "TypeMeta")
    ∷ (calls (of_library "metav1.ObjectMeta"), "ObjectMeta")
    ∷ (calls (own copy_provider_config_spec), "Spec")
    ∷ (calls (own copy_provider_config_status), "Status")
    ∷ [])

abbrev pub copy_cluster_provider_config_list : Method
copy_cluster_provider_config_list = method_of (
    (assigns, "TypeMeta")
    ∷ (calls (of_library "metav1.ListMeta"), "ListMeta")
    ∷ (makes_items (own copy_cluster_provider_config), "Items")
    ∷ [])
