-- ===== src/Copies/Site/SiteTypes.antt =====
-- apis/cluster/site/v1alpha1/zz_site_types.go: the structs below Site, by their fields.
use provider_upjet_unifi.Base.{[], ◌∷◌}
use provider_upjet_unifi.Copies.{
  flat, pointer, slice, struct, library, optional, struct_of, FieldTypes,
}

abbrev pub timeouts_parameters : FieldTypes
timeouts_parameters = struct_of ((optional, "Create Delete Read Update") ∷ [])

abbrev pub site_parameters : FieldTypes
site_parameters =
    struct_of ((optional, "Description") ∷ (pointer (struct timeouts_parameters), "Timeouts") ∷ [])

abbrev pub timeouts_init_parameters : FieldTypes
timeouts_init_parameters = struct_of ((optional, "Create Delete Read Update") ∷ [])

abbrev pub site_init_parameters : FieldTypes
site_init_parameters =
    struct_of
      ((optional, "Description") ∷ (pointer (struct timeouts_init_parameters), "Timeouts") ∷ [])

abbrev pub site_spec : FieldTypes
site_spec = struct_of (
    (library "v2.ClusterManagedResourceSpec", "ClusterManagedResourceSpec")
    ∷ (struct site_parameters, "ForProvider")
    ∷ (struct site_init_parameters, "InitProvider")
    ∷ [])

abbrev pub timeouts_observation : FieldTypes
timeouts_observation = struct_of ((optional, "Create Delete Read Update") ∷ [])

abbrev pub site_observation : FieldTypes
site_observation =
    struct_of
      ((optional, "Description ID Name") ∷ (pointer (struct timeouts_observation), "Timeouts") ∷ [])

abbrev pub site_status : FieldTypes
site_status = struct_of (
    (library "v2.ManagedResourceStatus", "ManagedResourceStatus")
    ∷ (struct site_observation, "AtProvider")
    ∷ [])

abbrev pub site : FieldTypes
site = struct_of (
    (flat, "TypeMeta")
    ∷ (library "metav1.ObjectMeta", "ObjectMeta")
    ∷ (struct site_spec, "Spec")
    ∷ (struct site_status, "Status")
    ∷ [])

abbrev pub site_list : FieldTypes
site_list = struct_of (
    (flat, "TypeMeta")
    ∷ (library "metav1.ListMeta", "ListMeta")
    ∷ (slice (struct site), "Items")
    ∷ [])
