-- ===== src/Copies/Namespaced/Wlan.antt =====
-- apis/namespaced/wlan/v1alpha1/zz_generated.deepcopy.go: its longer methods, and those of the kinds.
use provider_upjet_unifi.Copies.{Method}
use provider_upjet_unifi.Copies.Namespaced.{in_namespace}
use provider_upjet_unifi.Copies.Wlan.ApGroupMethods
use provider_upjet_unifi.Copies.Wlan.WlanMethods

abbrev pub namespaced_copy_ap_group_observation : Method
namespaced_copy_ap_group_observation = in_namespace ApGroupMethods.copy_ap_group_observation

abbrev pub namespaced_copy_ap_group : Method
namespaced_copy_ap_group = in_namespace ApGroupMethods.copy_ap_group

abbrev pub namespaced_copy_ap_group_list : Method
namespaced_copy_ap_group_list = in_namespace ApGroupMethods.copy_ap_group_list

abbrev pub namespaced_copy_wlan_parameters : Method
namespaced_copy_wlan_parameters = in_namespace WlanMethods.copy_wlan_parameters

abbrev pub namespaced_copy_wlan_init_parameters : Method
namespaced_copy_wlan_init_parameters = in_namespace WlanMethods.copy_wlan_init_parameters

abbrev pub namespaced_copy_wlan_observation : Method
namespaced_copy_wlan_observation = in_namespace WlanMethods.copy_wlan_observation

abbrev pub namespaced_copy_wlan : Method
namespaced_copy_wlan = in_namespace WlanMethods.copy_wlan

abbrev pub namespaced_copy_wlan_list : Method
namespaced_copy_wlan_list = in_namespace WlanMethods.copy_wlan_list
