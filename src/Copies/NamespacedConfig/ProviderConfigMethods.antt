-- ===== src/Copies/NamespacedConfig/ProviderConfigMethods.antt =====
-- apis/namespaced/v1beta1/zz_generated.deepcopy.go: the DeepCopyInto methods below ProviderConfig.
use provider_upjet_unifi.Base.{[], ◌∷◌}
use provider_upjet_unifi.Copies.{assigns, calls, makes_items, own, of_library, method_of, Method}

abbrev pub copy_provider_credentials : Method
copy_provider_credentials =
    method_of
      ((calls (of_library "xpv2.CommonCredentialSelectors"), "CommonCredentialSelectors") ∷ [])

abbrev pub copy_provider_config_spec : Method
copy_provider_config_spec = method_of ((calls (own copy_provider_credentials), "Credentials") ∷ [])

abbrev pub copy_provider_config_status : Method
copy_provider_config_status =
    method_of ((calls (of_library "xpv2.ProviderConfigStatus"), "ProviderConfigStatus") ∷ [])

abbrev pub copy_provider_config : Method
copy_provider_config = method_of (
    (assigns, "TypeMeta")
    ∷ (calls (of_library "metav1.ObjectMeta"), "ObjectMeta")
    ∷ (calls (own copy_provider_config_spec), "Spec")
    ∷ (calls (own copy_provider_config_status), "Status")
    ∷ [])

abbrev pub copy_provider_config_list : Method
copy_provider_config_list = method_of (
    (assigns, "TypeMeta")
    ∷ (calls (of_library "metav1.ListMeta"), "ListMeta")
    ∷ (makes_items (own copy_provider_config), "Items")
    ∷ [])
