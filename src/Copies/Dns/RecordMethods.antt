-- ===== src/Copies/Dns/RecordMethods.antt =====
-- apis/cluster/dns/v1alpha1/zz_generated.deepcopy.go: the DeepCopyInto methods below Record.
use provider_upjet_unifi.Base.{[], ◌∷◌}
use provider_upjet_unifi.Copies.{
  assigns, calls, allocates, allocates_into, makes_items, own, of_library, method_of, Method,
}

abbrev pub copy_timeouts_parameters : Method
copy_timeouts_parameters = method_of ((allocates, "Create Delete Read Update") ∷ [])

abbrev pub copy_record_parameters : Method
copy_record_parameters = method_of (
    (allocates, "Enabled Name Port Priority RecordType Site TTL")
    ∷ (allocates_into (own copy_timeouts_parameters), "Timeouts")
    ∷ (allocates, "Value Weight")
    ∷ [])

abbrev pub copy_timeouts_init_parameters : Method
copy_timeouts_init_parameters = method_of ((allocates, "Create Delete Read Update") ∷ [])

abbrev pub copy_record_init_parameters : Method
copy_record_init_parameters = method_of (
    (allocates, "Enabled Name Port Priority RecordType Site TTL")
    ∷ (allocates_into (own copy_timeouts_init_parameters), "Timeouts")
    ∷ (allocates, "Value Weight")
    ∷ [])

abbrev pub copy_record_spec : Method
copy_record_spec = method_of (
    (calls (of_library "v2.ClusterManagedResourceSpec"), "ClusterManagedResourceSpec")
    ∷ (calls (own copy_record_parameters), "ForProvider")
    ∷ (calls (own copy_record_init_parameters), "InitProvider")
    ∷ [])

abbrev pub copy_timeouts_observation : Method
copy_timeouts_observation = method_of ((allocates, "Create Delete Read Update") ∷ [])

abbrev pub copy_record_observation : Method
copy_record_observation = method_of (
    (allocates, "Enabled ID Name Port Priority RecordType Site TTL")
    ∷ (allocates_into (own copy_timeouts_observation), "Timeouts")
    ∷ (allocates, "Value Weight")
    ∷ [])

abbrev pub copy_record_status : Method
copy_record_status = method_of (
    (calls (of_library "v2.ManagedResourceStatus"), "ManagedResourceStatus")
    ∷ (calls (own copy_record_observation), "AtProvider")
    ∷ [])

abbrev pub copy_record_object : Method
copy_record_object = method_of (
    (assigns, "TypeMeta")
    ∷ (calls (of_library "metav1.ObjectMeta"), "ObjectMeta")
    ∷ (calls (own copy_record_spec), "Spec")
    ∷ (calls (own copy_record_status), "Status")
    ∷ [])

abbrev pub copy_record_list : Method
copy_record_list = method_of (
    (assigns, "TypeMeta")
    ∷ (calls (of_library "metav1.ListMeta"), "ListMeta")
    ∷ (makes_items (own copy_record_object), "Items")
    ∷ [])
