-- ===== src/Copies/Wlan/WlanMethods.antt =====
-- apis/cluster/wlan/v1alpha1/zz_generated.deepcopy.go: the DeepCopyInto methods below Wlan.
use provider_upjet_unifi.Base.{[], ◌∷◌}
use provider_upjet_unifi.Copies.{
  assigns, calls, allocates, allocates_into, makes_pointers, makes_items, own, of_library,
  method_of, Method,
}

abbrev pub copy_mac_filter_parameters : Method
copy_mac_filter_parameters =
    method_of ((allocates, "Enabled") ∷ (makes_pointers, "List") ∷ (allocates, "Policy") ∷ [])

abbrev pub copy_private_preshared_keys_parameters : Method
copy_private_preshared_keys_parameters = method_of (
    (allocates, "NetworkID")
    ∷ (allocates_into (of_library "v2.Reference"), "NetworkIDRef")
    ∷ (allocates_into (of_library "v2.Selector"), "NetworkIDSelector")
    ∷ (assigns, "PasswordSecretRef")
    ∷ [])

abbrev pub copy_schedule_parameters : Method
copy_schedule_parameters =
    method_of ((allocates, "DayOfWeek Duration Name StartHour StartMinute") ∷ [])

abbrev pub copy_wlan_timeouts_parameters : Method
copy_wlan_timeouts_parameters = method_of ((allocates, "Create Delete Read Update") ∷ [])

abbrev pub copy_wlan_parameters : Method
copy_wlan_parameters = method_of (
    (makes_pointers, "ApGroupIds")
    ∷ (makes_items (of_library "v2.Reference"), "ApGroupIdsRefs")
    ∷ (allocates_into (of_library "v2.Selector"), "ApGroupIdsSelector")
    ∷ (allocates, "ApGroupMode BandsteeringMode")
    ∷ (makes_pointers, "BcFilterList")
    ∷ (
      allocates,
      "BssTransition Dtim6E DtimMode DtimNa DtimNg Enabled EnhancedIot FastRoamingEnabled GroupRekey HideSsid Hotspot2ConfEnabled IappEnabled IsGuest L2Isolation",
    )
    ∷ (allocates_into (own copy_mac_filter_parameters), "MacFilter")
    ∷ (
      allocates,
      "MinimumDataRate2GKbps MinimumDataRate5GKbps MinrateSettingPreference MloEnabled MulticastEnhance Name NasIdentifierType NetworkID",
    )
    ∷ (allocates_into (of_library "v2.Reference"), "NetworkIDRef")
    ∷ (allocates_into (of_library "v2.Selector"), "NetworkIDSelector")
    ∷ (allocates, "No2GhzOui PassphraseSecretRef PassphraseWoSecretRef PmfMode")
    ∷ (makes_items (own copy_private_preshared_keys_parameters), "PrivatePresharedKeys")
    ∷ (allocates, "PrivatePresharedKeysEnabled ProxyArp RadiusMacAuthEnabled RadiusProfileID")
    ∷ (allocates_into (of_library "v2.Reference"), "RadiusProfileIDRef")
    ∷ (allocates_into (of_library "v2.Selector"), "RadiusProfileIDSelector")
    ∷ (makes_items (own copy_schedule_parameters), "Schedule")
    ∷ (allocates, "Security Site")
    ∷ (allocates_into (own copy_wlan_timeouts_parameters), "Timeouts")
    ∷ (allocates, "Uapsd UserGroupID Vlan VlanEnabled WlanBand")
    ∷ (makes_pointers, "WlanBands")
    ∷ (allocates, "Wpa3Enhanced192 Wpa3FastRoaming Wpa3Support Wpa3Transition WpaEnc WpaMode")
    ∷ [])

abbrev pub copy_mac_filter_init_parameters : Method
copy_mac_filter_init_parameters =
    method_of ((allocates, "Enabled") ∷ (makes_pointers, "List") ∷ (allocates, "Policy") ∷ [])

abbrev pub copy_private_preshared_keys_init_parameters : Method
copy_private_preshared_keys_init_parameters = method_of (
    (allocates, "NetworkID")
    ∷ (allocates_into (of_library "v2.Reference"), "NetworkIDRef")
    ∷ (allocates_into (of_library "v2.Selector"), "NetworkIDSelector")
    ∷ (assigns, "PasswordSecretRef")
    ∷ [])

abbrev pub copy_schedule_init_parameters : Method
copy_schedule_init_parameters =
    method_of ((allocates, "DayOfWeek Duration Name StartHour StartMinute") ∷ [])

abbrev pub copy_wlan_timeouts_init_parameters : Method
copy_wlan_timeouts_init_parameters = method_of ((allocates, "Create Delete Read Update") ∷ [])

abbrev pub copy_wlan_init_parameters : Method
copy_wlan_init_parameters = method_of (
    (makes_pointers, "ApGroupIds")
    ∷ (makes_items (of_library "v2.Reference"), "ApGroupIdsRefs")
    ∷ (allocates_into (of_library "v2.Selector"), "ApGroupIdsSelector")
    ∷ (allocates, "ApGroupMode BandsteeringMode")
    ∷ (makes_pointers, "BcFilterList")
    ∷ (
      allocates,
      "BssTransition Dtim6E DtimMode DtimNa DtimNg Enabled EnhancedIot FastRoamingEnabled GroupRekey HideSsid Hotspot2ConfEnabled IappEnabled IsGuest L2Isolation",
    )
    ∷ (allocates_into (own copy_mac_filter_init_parameters), "MacFilter")
    ∷ (
      allocates,
      "MinimumDataRate2GKbps MinimumDataRate5GKbps MinrateSettingPreference MloEnabled MulticastEnhance Name NasIdentifierType NetworkID",
    )
    ∷ (allocates_into (of_library "v2.Reference"), "NetworkIDRef")
    ∷ (allocates_into (of_library "v2.Selector"), "NetworkIDSelector")
    ∷ (allocates, "No2GhzOui PassphraseSecretRef PassphraseWoSecretRef PmfMode")
    ∷ (makes_items (own copy_private_preshared_keys_init_parameters), "PrivatePresharedKeys")
    ∷ (allocates, "PrivatePresharedKeysEnabled ProxyArp RadiusMacAuthEnabled RadiusProfileID")
    ∷ (allocates_into (of_library "v2.Reference"), "RadiusProfileIDRef")
    ∷ (allocates_into (of_library "v2.Selector"), "RadiusProfileIDSelector")
    ∷ (makes_items (own copy_schedule_init_parameters), "Schedule")
    ∷ (allocates, "Security Site")
    ∷ (allocates_into (own copy_wlan_timeouts_init_parameters), "Timeouts")
    ∷ (allocates, "Uapsd UserGroupID Vlan VlanEnabled WlanBand")
    ∷ (makes_pointers, "WlanBands")
    ∷ (allocates, "Wpa3Enhanced192 Wpa3FastRoaming Wpa3Support Wpa3Transition WpaEnc WpaMode")
    ∷ [])

abbrev pub copy_wlan_spec : Method
copy_wlan_spec = method_of (
    (calls (of_library "v2.ClusterManagedResourceSpec"), "ClusterManagedResourceSpec")
    ∷ (calls (own copy_wlan_parameters), "ForProvider")
    ∷ (calls (own copy_wlan_init_parameters), "InitProvider")
    ∷ [])

abbrev pub copy_mac_filter_observation : Method
copy_mac_filter_observation =
    method_of ((allocates, "Enabled") ∷ (makes_pointers, "List") ∷ (allocates, "Policy") ∷ [])

abbrev pub copy_private_preshared_keys_observation : Method
copy_private_preshared_keys_observation = method_of ((allocates, "NetworkID") ∷ [])

abbrev pub copy_schedule_observation : Method
copy_schedule_observation =
    method_of ((allocates, "DayOfWeek Duration Name StartHour StartMinute") ∷ [])

abbrev pub copy_wlan_timeouts_observation : Method
copy_wlan_timeouts_observation = method_of ((allocates, "Create Delete Read Update") ∷ [])

abbrev pub copy_wlan_observation : Method
copy_wlan_observation = method_of (
    (makes_pointers, "ApGroupIds")
    ∷ (allocates, "ApGroupMode BandsteeringMode")
    ∷ (makes_pointers, "BcFilterList")
    ∷ (
      allocates,
      "BssTransition Dtim6E DtimMode DtimNa DtimNg Enabled EnhancedIot FastRoamingEnabled GroupRekey HideSsid Hotspot2ConfEnabled ID IappEnabled IsGuest L2Isolation",
    )
    ∷ (allocates_into (own copy_mac_filter_observation), "MacFilter")
    ∷ (
      allocates,
      "MinimumDataRate2GKbps MinimumDataRate5GKbps MinrateSettingPreference MloEnabled MulticastEnhance Name NasIdentifierType NetworkID No2GhzOui PmfMode",
    )
    ∷ (makes_items (own copy_private_preshared_keys_observation), "PrivatePresharedKeys")
    ∷ (allocates, "PrivatePresharedKeysEnabled ProxyArp RadiusMacAuthEnabled RadiusProfileID")
    ∷ (makes_items (own copy_schedule_observation), "Schedule")
    ∷ (allocates, "Security Site")
    ∷ (allocates_into (own copy_wlan_timeouts_observation), "Timeouts")
    ∷ (allocates, "Uapsd UserGroupID Vlan VlanEnabled WlanBand")
    ∷ (makes_pointers, "WlanBands")
    ∷ (allocates, "Wpa3Enhanced192 Wpa3FastRoaming Wpa3Support Wpa3Transition WpaEnc WpaMode")
    ∷ [])

abbrev pub copy_wlan_status : Method
copy_wlan_status = method_of (
    (calls (of_library "v2.ManagedResourceStatus"), "ManagedResourceStatus")
    ∷ (calls (own copy_wlan_observation), "AtProvider")
    ∷ [])

abbrev pub copy_wlan : Method
copy_wlan = method_of (
    (assigns, "TypeMeta")
    ∷ (calls (of_library "metav1.ObjectMeta"), "ObjectMeta")
    ∷ (calls (own copy_wlan_spec), "Spec")
    ∷ (calls (own copy_wlan_status), "Status")
    ∷ [])

abbrev pub copy_wlan_list : Method
copy_wlan_list = method_of (
    (assigns, "TypeMeta")
    ∷ (calls (of_library "metav1.ListMeta"), "ListMeta")
    ∷ (makes_items (own copy_wlan), "Items")
    ∷ [])
