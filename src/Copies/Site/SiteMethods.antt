-- ===== src/Copies/Site/SiteMethods.antt =====
-- apis/cluster/site/v1alpha1/zz_generated.deepcopy.go: the DeepCopyInto methods below Site.
use provider_upjet_unifi.Base.{[], ◌∷◌}
use provider_upjet_unifi.Copies.{
  assigns, calls, allocates, allocates_into, makes_items, own, of_library, method_of, Method,
}

abbrev pub copy_timeouts_parameters : Method
copy_timeouts_parameters = method_of ((allocates, "Create Delete Read Update") ∷ [])

abbrev pub copy_site_parameters : Method
copy_site_parameters =
    method_of (
      (allocates, "Description") ∷ (allocates_into (own copy_timeouts_parameters), "Timeouts") ∷ [])

abbrev pub copy_timeouts_init_parameters : Method
copy_timeouts_init_parameters = method_of ((allocates, "Create Delete Read Update") ∷ [])

abbrev pub copy_site_init_parameters : Method
copy_site_init_parameters = method_of (
    (allocates, "Description")
    ∷ (allocates_into (own copy_timeouts_init_parameters), "Timeouts")
    ∷ [])

abbrev pub copy_site_spec : Method
copy_site_spec = method_of (
    (calls (of_library "v2.ClusterManagedResourceSpec"), "ClusterManagedResourceSpec")
    ∷ (calls (own copy_site_parameters), "ForProvider")
    ∷ (calls (own copy_site_init_parameters), "InitProvider")
    ∷ [])

abbrev pub copy_timeouts_observation : Method
copy_timeouts_observation = method_of ((allocates, "Create Delete Read Update") ∷ [])

abbrev pub copy_site_observation : Method
copy_site_observation = method_of (
    (allocates, "Description ID Name")
    ∷ (allocates_into (own copy_timeouts_observation), "Timeouts")
    ∷ [])

abbrev pub copy_site_status : Method
copy_site_status = method_of (
    (calls (of_library "v2.ManagedResourceStatus"), "ManagedResourceStatus")
    ∷ (calls (own copy_site_observation), "AtProvider")
    ∷ [])

abbrev pub copy_site : Method
copy_site = method_of (
    (assigns, "TypeMeta")
    ∷ (calls (of_library "metav1.ObjectMeta"), "ObjectMeta")
    ∷ (calls (own copy_site_spec), "Spec")
    ∷ (calls (own copy_site_status), "Status")
    ∷ [])

abbrev pub copy_site_list : Method
copy_site_list = method_of (
    (assigns, "TypeMeta")
    ∷ (calls (of_library "metav1.ListMeta"), "ListMeta")
    ∷ (makes_items (own copy_site), "Items")
    ∷ [])
