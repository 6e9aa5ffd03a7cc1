-- ===== src/Copies/Firewall/ZoneMethods.antt =====
-- apis/cluster/firewall/v1alpha1/zz_generated.deepcopy.go: the DeepCopyInto methods below Zone.
use provider_upjet_unifi.Base.{[], ◌∷◌}
use provider_upjet_unifi.Copies.{
  assigns, calls, allocates, allocates_into, makes_pointers, makes_items, own, of_library,
  method_of, Method,
}

abbrev pub copy_zone_timeouts_parameters : Method
copy_zone_timeouts_parameters = method_of ((allocates, "Create Delete Read Update") ∷ [])

abbrev pub copy_zone_parameters : Method
copy_zone_parameters = method_of (
    (allocates, "Name")
    ∷ (makes_pointers, "NetworkIds")
    ∷ (makes_items (of_library "v2.Reference"), "NetworkIdsRefs")
    ∷ (allocates_into (of_library "v2.Selector"), "NetworkIdsSelector")
    ∷ (allocates, "Site")
    ∷ (allocates_into (own copy_zone_timeouts_parameters), "Timeouts")
    ∷ [])

abbrev pub copy_zone_timeouts_init_parameters : Method
copy_zone_timeouts_init_parameters = method_of ((allocates, "Create Delete Read Update") ∷ [])

abbrev pub copy_zone_init_parameters : Method
copy_zone_init_parameters = method_of (
    (allocates, "Name")
    ∷ (makes_pointers, "NetworkIds")
    ∷ (makes_items (of_library "v2.Reference"), "NetworkIdsRefs")
    ∷ (allocates_into (of_library "v2.Selector"), "NetworkIdsSelector")
    ∷ (allocates, "Site")
    ∷ (allocates_into (own copy_zone_timeouts_init_parameters), "Timeouts")
    ∷ [])

abbrev pub copy_zone_spec : Method
copy_zone_spec = method_of (
    (calls (of_library "v2.ClusterManagedResourceSpec"), "ClusterManagedResourceSpec")
    ∷ (calls (own copy_zone_parameters), "ForProvider")
    ∷ (calls (own copy_zone_init_parameters), "InitProvider")
    ∷ [])

abbrev pub copy_zone_timeouts_observation : Method
copy_zone_timeouts_observation = method_of ((allocates, "Create Delete Read Update") ∷ [])

abbrev pub copy_zone_observation : Method
copy_zone_observation = method_of (
    (allocates, "DefaultZone ID Name")
    ∷ (makes_pointers, "NetworkIds")
    ∷ (allocates, "Site")
    ∷ (allocates_into (own copy_zone_timeouts_observation), "Timeouts")
    ∷ (allocates, "ZoneKey")
    ∷ [])

abbrev pub copy_zone_status : Method
copy_zone_status = method_of (
    (calls (of_library "v2.ManagedResourceStatus"), "ManagedResourceStatus")
    ∷ (calls (own copy_zone_observation), "AtProvider")
    ∷ [])

abbrev pub copy_zone : Method
copy_zone = method_of (
    (assigns, "TypeMeta")
    ∷ (calls (of_library "metav1.ObjectMeta"), "ObjectMeta")
    ∷ (calls (own copy_zone_spec), "Spec")
    ∷ (calls (own copy_zone_status), "Status")
    ∷ [])

abbrev pub copy_zone_list : Method
copy_zone_list = method_of (
    (assigns, "TypeMeta")
    ∷ (calls (of_library "metav1.ListMeta"), "ListMeta")
    ∷ (makes_items (own copy_zone), "Items")
    ∷ [])
