-- ===== src/Copies/Route/TrafficRouteMethods.antt =====
-- apis/cluster/route/v1alpha1/zz_generated.deepcopy.go: the DeepCopyInto methods below TrafficRoute.
use provider_upjet_unifi.Base.{[], ◌∷◌}
use provider_upjet_unifi.Copies.{
  assigns, calls, allocates, allocates_into, makes_pointers, makes_items, own, of_library,
  method_of, Method,
}

abbrev pub copy_ip_parameters : Method
copy_ip_parameters = method_of ((allocates, "Address") ∷ (makes_pointers, "Ports") ∷ [])

abbrev pub copy_destination_parameters : Method
copy_destination_parameters = method_of (
    (makes_pointers, "Domain")
    ∷ (makes_items (own copy_ip_parameters), "IP")
    ∷ (makes_pointers, "Region")
    ∷ [])

abbrev pub copy_clients_parameters : Method
copy_clients_parameters = method_of ((allocates, "Mac") ∷ [])

abbrev pub copy_networks_parameters : Method
copy_networks_parameters = method_of ((allocates, "ID") ∷ [])

abbrev pub copy_source_parameters : Method
copy_source_parameters = method_of (
    (makes_items (own copy_clients_parameters), "Clients")
    ∷ (makes_items (own copy_networks_parameters), "Networks")
    ∷ [])

abbrev pub copy_traffic_route_timeouts_parameters : Method
copy_traffic_route_timeouts_parameters = method_of ((allocates, "Create Delete Read Update") ∷ [])

abbrev pub copy_traffic_route_parameters : Method
copy_traffic_route_parameters = method_of (
    (allocates, "Description")
    ∷ (allocates_into (own copy_destination_parameters), "Destination")
    ∷ (allocates, "Enabled KillSwitchEnabled NetworkID")
    ∷ (allocates_into (of_library "v2.Reference"), "NetworkIDRef")
    ∷ (allocates_into (of_library "v2.Selector"), "NetworkIDSelector")
    ∷ (allocates, "NextHop Site")
    ∷ (allocates_into (own copy_source_parameters), "Source")
    ∷ (allocates_into (own copy_traffic_route_timeouts_parameters), "Timeouts")
    ∷ [])

abbrev pub copy_ip_init_parameters : Method
copy_ip_init_parameters = method_of ((allocates, "Address") ∷ (makes_pointers, "Ports") ∷ [])

abbrev pub copy_destination_init_parameters : Method
copy_destination_init_parameters = method_of (
    (makes_pointers, "Domain")
    ∷ (makes_items (own copy_ip_init_parameters), "IP")
    ∷ (makes_pointers, "Region")
    ∷ [])

abbrev pub copy_clients_init_parameters : Method
copy_clients_init_parameters = method_of ((allocates, "Mac") ∷ [])

abbrev pub copy_networks_init_parameters : Method
copy_networks_init_parameters = method_of ((allocates, "ID") ∷ [])

abbrev pub copy_source_init_parameters : Method
copy_source_init_parameters = method_of (
    (makes_items (own copy_clients_init_parameters), "Clients")
    ∷ (makes_items (own copy_networks_init_parameters), "Networks")
    ∷ [])

abbrev pub copy_traffic_route_timeouts_init_parameters : Method
copy_traffic_route_timeouts_init_parameters =
    method_of ((allocates, "Create Delete Read Update") ∷ [])

abbrev pub copy_traffic_route_init_parameters : Method
copy_traffic_route_init_parameters = method_of (
    (allocates, "Description")
    ∷ (allocates_into (own copy_destination_init_parameters), "Destination")
    ∷ (allocates, "Enabled KillSwitchEnabled NetworkID")
    ∷ (allocates_into (of_library "v2.Reference"), "NetworkIDRef")
    ∷ (allocates_into (of_library "v2.Selector"), "NetworkIDSelector")
    ∷ (allocates, "NextHop Site")
    ∷ (allocates_into (own copy_source_init_parameters), "Source")
    ∷ (allocates_into (own copy_traffic_route_timeouts_init_parameters), "Timeouts")
    ∷ [])

abbrev pub copy_traffic_route_spec : Method
copy_traffic_route_spec = method_of (
    (calls (of_library "v2.ClusterManagedResourceSpec"), "ClusterManagedResourceSpec")
    ∷ (calls (own copy_traffic_route_parameters), "ForProvider")
    ∷ (calls (own copy_traffic_route_init_parameters), "InitProvider")
    ∷ [])

abbrev pub copy_ip_observation : Method
copy_ip_observation = method_of ((allocates, "Address") ∷ (makes_pointers, "Ports") ∷ [])

abbrev pub copy_destination_observation : Method
copy_destination_observation = method_of (
    (makes_pointers, "Domain")
    ∷ (makes_items (own copy_ip_observation), "IP")
    ∷ (makes_pointers, "Region")
    ∷ [])

abbrev pub copy_clients_observation : Method
copy_clients_observation = method_of ((allocates, "Mac") ∷ [])

abbrev pub copy_networks_observation : Method
copy_networks_observation = method_of ((allocates, "ID") ∷ [])

abbrev pub copy_source_observation : Method
copy_source_observation = method_of (
    (makes_items (own copy_clients_observation), "Clients")
    ∷ (makes_items (own copy_networks_observation), "Networks")
    ∷ [])

abbrev pub copy_traffic_route_timeouts_observation : Method
copy_traffic_route_timeouts_observation = method_of ((allocates, "Create Delete Read Update") ∷ [])

abbrev pub copy_traffic_route_observation : Method
copy_traffic_route_observation = method_of (
    (allocates, "Description")
    ∷ (allocates_into (own copy_destination_observation), "Destination")
    ∷ (allocates, "Enabled ID KillSwitchEnabled NetworkID NextHop Site")
    ∷ (allocates_into (own copy_source_observation), "Source")
    ∷ (allocates_into (own copy_traffic_route_timeouts_observation), "Timeouts")
    ∷ [])

abbrev pub copy_traffic_route_status : Method
copy_traffic_route_status = method_of (
    (calls (of_library "v2.ManagedResourceStatus"), "ManagedResourceStatus")
    ∷ (calls (own copy_traffic_route_observation), "AtProvider")
    ∷ [])

abbrev pub copy_traffic_route : Method
copy_traffic_route = method_of (
    (assigns, "TypeMeta")
    ∷ (calls (of_library "metav1.ObjectMeta"), "ObjectMeta")
    ∷ (calls (own copy_traffic_route_spec), "Spec")
    ∷ (calls (own copy_traffic_route_status), "Status")
    ∷ [])

abbrev pub copy_traffic_route_list : Method
copy_traffic_route_list = method_of (
    (assigns, "TypeMeta")
    ∷ (calls (of_library "metav1.ListMeta"), "ListMeta")
    ∷ (makes_items (own copy_traffic_route), "Items")
    ∷ [])
