-- ===== src/Copies/NamespacedConfig/ProviderConfigUsageMethods.antt =====
-- apis/namespaced/v1beta1/zz_generated.deepcopy.go: the DeepCopyInto methods below ProviderConfigUsage.
use provider_upjet_unifi.Base.{[], ◌∷◌}
use provider_upjet_unifi.Copies.{assigns, calls, makes_items, own, of_library, method_of, Method}

abbrev pub copy_provider_config_usage : Method
copy_provider_config_usage = method_of (
    (assigns, "TypeMeta")
    ∷ (calls (of_library "metav1.ObjectMeta"), "ObjectMeta")
    ∷ (assigns, "TypedProviderConfigUsage")
    ∷ [])

abbrev pub copy_provider_config_usage_list : Method
copy_provider_config_usage_list = method_of (
    (assigns, "TypeMeta")
    ∷ (calls (of_library "metav1.ListMeta"), "ListMeta")
    ∷ (makes_items (own copy_provider_config_usage), "Items")
    ∷ [])
