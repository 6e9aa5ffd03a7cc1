-- ===== src/Copies/Route/StaticRouteTypes.antt =====
-- apis/cluster/route/v1alpha1/zz_staticroute_types.go: the structs below StaticRoute, by their fields.
use provider_upjet_unifi.Base.{[], ◌∷◌}
use provider_upjet_unifi.Copies.{
  flat, pointer, slice, struct, library, optional, struct_of, FieldTypes,
}

abbrev pub timeouts_parameters : FieldTypes
timeouts_parameters = struct_of ((optional, "Create Delete Read Update") ∷ [])

abbrev pub static_route_parameters : FieldTypes
static_route_parameters = struct_of (
    (optional, "Distance Enabled GatewayDevice GatewayType Interface Name Network NextHop Site")
    ∷ (pointer (struct timeouts_parameters), "Timeouts")
    ∷ (optional, "Type")
    ∷ [])

abbrev pub timeouts_init_parameters : FieldTypes
timeouts_init_parameters = struct_of ((optional, "Create Delete Read Update") ∷ [])

abbrev pub static_route_init_parameters : FieldTypes
static_route_init_parameters = struct_of (
    (optional, "Distance Enabled GatewayDevice GatewayType Interface Name Network NextHop Site")
    ∷ (pointer (struct timeouts_init_parameters), "Timeouts")
    ∷ (optional, "Type")
    ∷ [])

abbrev pub static_route_spec : FieldTypes
static_route_spec = struct_of (
    (library "v2.ClusterManagedResourceSpec", "ClusterManagedResourceSpec")
    ∷ (struct static_route_parameters, "ForProvider")
    ∷ (struct static_route_init_parameters, "InitProvider")
    ∷ [])

abbrev pub timeouts_observation : FieldTypes
timeouts_observation = struct_of ((optional, "Create Delete Read Update") ∷ [])

abbrev pub static_route_observation : FieldTypes
static_route_observation = struct_of (
    (optional, "Distance Enabled GatewayDevice GatewayType ID Interface Name Network NextHop Site")
    ∷ (pointer (struct timeouts_observation), "Timeouts")
    ∷ (optional, "Type")
    ∷ [])

abbrev pub static_route_status : FieldTypes
static_route_status = struct_of (
    (library "v2.ManagedResourceStatus", "ManagedResourceStatus")
    ∷ (struct static_route_observation, "AtProvider")
    ∷ [])

abbrev pub static_route : FieldTypes
static_route = struct_of (
    (flat, "TypeMeta")
    ∷ (library "metav1.ObjectMeta", "ObjectMeta")
    ∷ (struct static_route_spec, "Spec")
    ∷ (struct static_route_status, "Status")
    ∷ [])

abbrev pub static_route_list : FieldTypes
static_route_list = struct_of (
    (flat, "TypeMeta")
    ∷ (library "metav1.ListMeta", "ListMeta")
    ∷ (slice (struct static_route), "Items")
    ∷ [])
