-- ===== src/Copies/Route/StaticRouteMethods.antt =====
-- apis/cluster/route/v1alpha1/zz_generated.deepcopy.go: the DeepCopyInto methods below StaticRoute.
use provider_upjet_unifi.Base.{[], ◌∷◌}
use provider_upjet_unifi.Copies.{
  assigns, calls, allocates, allocates_into, makes_items, own, of_library, method_of, Method,
}

abbrev pub copy_timeouts_parameters : Method
copy_timeouts_parameters = method_of ((allocates, "Create Delete Read Update") ∷ [])

abbrev pub copy_static_route_parameters : Method
copy_static_route_parameters = method_of (
    (allocates, "Distance Enabled GatewayDevice GatewayType Interface Name Network NextHop Site")
    ∷ (allocates_into (own copy_timeouts_parameters), "Timeouts")
    ∷ (allocates, "Type")
    ∷ [])

abbrev pub copy_timeouts_init_parameters : Method
copy_timeouts_init_parameters = method_of ((allocates, "Create Delete Read Update") ∷ [])

abbrev pub copy_static_route_init_parameters : Method
copy_static_route_init_parameters = method_of (
    (allocates, "Distance Enabled GatewayDevice GatewayType Interface Name Network NextHop Site")
    ∷ (allocates_into (own copy_timeouts_init_parameters), "Timeouts")
    ∷ (allocates, "Type")
    ∷ [])

abbrev pub copy_static_route_spec : Method
copy_static_route_spec = method_of (
    (calls (of_library "v2.ClusterManagedResourceSpec"), "ClusterManagedResourceSpec")
    ∷ (calls (own copy_static_route_parameters), "ForProvider")
    ∷ (calls (own copy_static_route_init_parameters), "InitProvider")
    ∷ [])

abbrev pub copy_timeouts_observation : Method
copy_timeouts_observation = method_of ((allocates, "Create Delete Read Update") ∷ [])

abbrev pub copy_static_route_observation : Method
copy_static_route_observation = method_of (
    (allocates, "Distance Enabled GatewayDevice GatewayType ID Interface Name Network NextHop Site")
    ∷ (allocates_into (own copy_timeouts_observation), "Timeouts")
    ∷ (allocates, "Type")
    ∷ [])

abbrev pub copy_static_route_status : Method
copy_static_route_status = method_of (
    (calls (of_library "v2.ManagedResourceStatus"), "ManagedResourceStatus")
    ∷ (calls (own copy_static_route_observation), "AtProvider")
    ∷ [])

abbrev pub copy_static_route : Method
copy_static_route = method_of (
    (assigns, "TypeMeta")
    ∷ (calls (of_library "metav1.ObjectMeta"), "ObjectMeta")
    ∷ (calls (own copy_static_route_spec), "Spec")
    ∷ (calls (own copy_static_route_status), "Status")
    ∷ [])

abbrev pub copy_static_route_list : Method
copy_static_route_list = method_of (
    (assigns, "TypeMeta")
    ∷ (calls (of_library "metav1.ListMeta"), "ListMeta")
    ∷ (makes_items (own copy_static_route), "Items")
    ∷ [])
