-- ===== src/Copies/Wlan/WlanTypes.antt =====
-- apis/cluster/wlan/v1alpha1/zz_wlan_types.go: the structs below Wlan, by their fields.
use provider_upjet_unifi.Base.{[], ◌∷◌}
use provider_upjet_unifi.Copies.{
  flat, pointer, slice, struct, library, optional, struct_of, FieldTypes,
}

abbrev pub mac_filter_parameters : FieldTypes
mac_filter_parameters =
    struct_of ((optional, "Enabled") ∷ (slice optional, "List") ∷ (optional, "Policy") ∷ [])

abbrev pub private_preshared_keys_parameters : FieldTypes
private_preshared_keys_parameters = struct_of (
    (optional, "NetworkID")
    ∷ (pointer (library "v2.Reference"), "NetworkIDRef")
    ∷ (pointer (library "v2.Selector"), "NetworkIDSelector")
    ∷ (flat, "PasswordSecretRef")
    ∷ [])

abbrev pub schedule_parameters : FieldTypes
schedule_parameters = struct_of ((optional, "DayOfWeek Duration Name StartHour StartMinute") ∷ [])

abbrev pub wlan_timeouts_parameters : FieldTypes
wlan_timeouts_parameters = struct_of ((optional, "Create Delete Read Update") ∷ [])

abbrev pub wlan_parameters : FieldTypes
wlan_parameters = struct_of (
    (slice optional, "ApGroupIds")
    ∷ (slice (library "v2.Reference"), "ApGroupIdsRefs")
    ∷ (pointer (library "v2.Selector"), "ApGroupIdsSelector")
    ∷ (optional, "ApGroupMode BandsteeringMode")
    ∷ (slice optional, "BcFilterList")
    ∷ (
      optional,
      "BssTransition Dtim6E DtimMode DtimNa DtimNg Enabled EnhancedIot FastRoamingEnabled GroupRekey HideSsid Hotspot2ConfEnabled IappEnabled IsGuest L2Isolation",
    )
    ∷ (pointer (struct mac_filter_parameters), "MacFilter")
    ∷ (
      optional,
      "MinimumDataRate2GKbps MinimumDataRate5GKbps MinrateSettingPreference MloEnabled MulticastEnhance Name NasIdentifierType NetworkID",
    )
    ∷ (pointer (library "v2.Reference"), "NetworkIDRef")
    ∷ (pointer (library "v2.Selector"), "NetworkIDSelector")
    ∷ (optional, "No2GhzOui PassphraseSecretRef PassphraseWoSecretRef PmfMode")
    ∷ (slice (struct private_preshared_keys_parameters), "PrivatePresharedKeys")
    ∷ (optional, "PrivatePresharedKeysEnabled ProxyArp RadiusMacAuthEnabled RadiusProfileID")
    ∷ (pointer (library "v2.Reference"), "RadiusProfileIDRef")
    ∷ (pointer (library "v2.Selector"), "RadiusProfileIDSelector")
    ∷ (slice (struct schedule_parameters), "Schedule")
    ∷ (optional, "Security Site")
    ∷ (pointer (struct wlan_timeouts_parameters), "Timeouts")
    ∷ (optional, "Uapsd UserGroupID Vlan VlanEnabled WlanBand")
    ∷ (slice optional, "WlanBands")
    ∷ (optional, "Wpa3Enhanced192 Wpa3FastRoaming Wpa3Support Wpa3Transition WpaEnc WpaMode")
    ∷ [])

abbrev pub mac_filter_init_parameters : FieldTypes
mac_filter_init_parameters =
    struct_of ((optional, "Enabled") ∷ (slice optional, "List") ∷ (optional, "Policy") ∷ [])

abbrev pub private_preshared_keys_init_parameters : FieldTypes
private_preshared_keys_init_parameters = struct_of (
    (optional, "NetworkID")
    ∷ (pointer (library "v2.Reference"), "NetworkIDRef")
    ∷ (pointer (library "v2.Selector"), "NetworkIDSelector")
    ∷ (flat, "PasswordSecretRef")
    ∷ [])

abbrev pub schedule_init_parameters : FieldTypes
schedule_init_parameters =
    struct_of ((optional, "DayOfWeek Duration Name StartHour StartMinute") ∷ [])

abbrev pub wlan_timeouts_init_parameters : FieldTypes
wlan_timeouts_init_parameters = struct_of ((optional, "Create Delete Read Update") ∷ [])

abbrev pub wlan_init_parameters : FieldTypes
wlan_init_parameters = struct_of (
    (slice optional, "ApGroupIds")
    ∷ (slice (library "v2.Reference"), "ApGroupIdsRefs")
    ∷ (pointer (library "v2.Selector"), "ApGroupIdsSelector")
    ∷ (optional, "ApGroupMode BandsteeringMode")
    ∷ (slice optional, "BcFilterList")
    ∷ (
      optional,
      "BssTransition Dtim6E DtimMode DtimNa DtimNg Enabled EnhancedIot FastRoamingEnabled GroupRekey HideSsid Hotspot2ConfEnabled IappEnabled IsGuest L2Isolation",
    )
    ∷ (pointer (struct mac_filter_init_parameters), "MacFilter")
    ∷ (
      optional,
      "MinimumDataRate2GKbps MinimumDataRate5GKbps MinrateSettingPreference MloEnabled MulticastEnhance Name NasIdentifierType NetworkID",
    )
    ∷ (pointer (library "v2.Reference"), "NetworkIDRef")
    ∷ (pointer (library "v2.Selector"), "NetworkIDSelector")
    ∷ (optional, "No2GhzOui PassphraseSecretRef PassphraseWoSecretRef PmfMode")
    ∷ (slice (struct private_preshared_keys_init_parameters), "PrivatePresharedKeys")
    ∷ (optional, "PrivatePresharedKeysEnabled ProxyArp RadiusMacAuthEnabled RadiusProfileID")
    ∷ (pointer (library "v2.Reference"), "RadiusProfileIDRef")
    ∷ (pointer (library "v2.Selector"), "RadiusProfileIDSelector")
    ∷ (slice (struct schedule_init_parameters), "Schedule")
    ∷ (optional, "Security Site")
    ∷ (pointer (struct wlan_timeouts_init_parameters), "Timeouts")
    ∷ (optional, "Uapsd UserGroupID Vlan VlanEnabled WlanBand")
    ∷ (slice optional, "WlanBands")
    ∷ (optional, "Wpa3Enhanced192 Wpa3FastRoaming Wpa3Support Wpa3Transition WpaEnc WpaMode")
    ∷ [])

abbrev pub wlan_spec : FieldTypes
wlan_spec = struct_of (
    (library "v2.ClusterManagedResourceSpec", "ClusterManagedResourceSpec")
    ∷ (struct wlan_parameters, "ForProvider")
    ∷ (struct wlan_init_parameters, "InitProvider")
    ∷ [])

abbrev pub mac_filter_observation : FieldTypes
mac_filter_observation =
    struct_of ((optional, "Enabled") ∷ (slice optional, "List") ∷ (optional, "Policy") ∷ [])

abbrev pub private_preshared_keys_observation : FieldTypes
private_preshared_keys_observation = struct_of ((optional, "NetworkID") ∷ [])

abbrev pub schedule_observation : FieldTypes
schedule_observation = struct_of ((optional, "DayOfWeek Duration Name StartHour StartMinute") ∷ [])

abbrev pub wlan_timeouts_observation : FieldTypes
wlan_timeouts_observation = struct_of ((optional, "Create Delete Read Update") ∷ [])

abbrev pub wlan_observation : FieldTypes
wlan_observation = struct_of (
    (slice optional, "ApGroupIds")
    ∷ (optional, "ApGroupMode BandsteeringMode")
    ∷ (slice optional, "BcFilterList")
    ∷ (
      optional,
      "BssTransition Dtim6E DtimMode DtimNa DtimNg Enabled EnhancedIot FastRoamingEnabled GroupRekey HideSsid Hotspot2ConfEnabled ID IappEnabled IsGuest L2Isolation",
    )
    ∷ (pointer (struct mac_filter_observation), "MacFilter")
    ∷ (
      optional,
      "MinimumDataRate2GKbps MinimumDataRate5GKbps MinrateSettingPreference MloEnabled MulticastEnhance Name NasIdentifierType NetworkID No2GhzOui PmfMode",
    )
    ∷ (slice (struct private_preshared_keys_observation), "PrivatePresharedKeys")
    ∷ (optional, "PrivatePresharedKeysEnabled ProxyArp RadiusMacAuthEnabled RadiusProfileID")
    ∷ (slice (struct schedule_observation), "Schedule")
    ∷ (optional, "Security Site")
    ∷ (pointer (struct wlan_timeouts_observation), "Timeouts")
    ∷ (optional, "Uapsd UserGroupID Vlan VlanEnabled WlanBand")
    ∷ (slice optional, "WlanBands")
    ∷ (optional, "Wpa3Enhanced192 Wpa3FastRoaming Wpa3Support Wpa3Transition WpaEnc WpaMode")
    ∷ [])

abbrev pub wlan_status : FieldTypes
wlan_status = struct_of (
    (library "v2.ManagedResourceStatus", "ManagedResourceStatus")
    ∷ (struct wlan_observation, "AtProvider")
    ∷ [])

abbrev pub wlan : FieldTypes
wlan = struct_of (
    (flat, "TypeMeta")
    ∷ (library "metav1.ObjectMeta", "ObjectMeta")
    ∷ (struct wlan_spec, "Spec")
    ∷ (struct wlan_status, "Status")
    ∷ [])

abbrev pub wlan_list : FieldTypes
wlan_list = struct_of (
    (flat, "TypeMeta")
    ∷ (library "metav1.ListMeta", "ListMeta")
    ∷ (slice (struct wlan), "Items")
    ∷ [])
