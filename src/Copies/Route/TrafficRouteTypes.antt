-- ===== src/Copies/Route/TrafficRouteTypes.antt =====
-- apis/cluster/route/v1alpha1/zz_trafficroute_types.go: the structs below TrafficRoute, by their fields.
use provider_upjet_unifi.Base.{[], ◌∷◌}
use provider_upjet_unifi.Copies.{
  flat, pointer, slice, struct, library, optional, struct_of, FieldTypes,
}

abbrev pub ip_parameters : FieldTypes
ip_parameters = struct_of ((optional, "Address") ∷ (slice optional, "Ports") ∷ [])

abbrev pub destination_parameters : FieldTypes
destination_parameters = struct_of (
    (slice optional, "Domain")
    ∷ (slice (struct ip_parameters), "IP")
    ∷ (slice optional, "Region")
    ∷ [])

abbrev pub clients_parameters : FieldTypes
clients_parameters = struct_of ((optional, "Mac") ∷ [])

abbrev pub networks_parameters : FieldTypes
networks_parameters = struct_of ((optional, "ID") ∷ [])

abbrev pub source_parameters : FieldTypes
source_parameters = struct_of (
    (slice (struct clients_parameters), "Clients")
    ∷ (slice (struct networks_parameters), "Networks")
    ∷ [])

abbrev pub traffic_route_timeouts_parameters : FieldTypes
traffic_route_timeouts_parameters = struct_of ((optional, "Create Delete Read Update") ∷ [])

abbrev pub traffic_route_parameters : FieldTypes
traffic_route_parameters = struct_of (
    (optional, "Description")
    ∷ (pointer (struct destination_parameters), "Destination")
    ∷ (optional, "Enabled KillSwitchEnabled NetworkID")
    ∷ (pointer (library "v2.Reference"), "NetworkIDRef")
    ∷ (pointer (library "v2.Selector"), "NetworkIDSelector")
    ∷ (optional, "NextHop Site")
    ∷ (pointer (struct source_parameters), "Source")
    ∷ (pointer (struct traffic_route_timeouts_parameters), "Timeouts")
    ∷ [])

abbrev pub ip_init_parameters : FieldTypes
ip_init_parameters = struct_of ((optional, "Address") ∷ (slice optional, "Ports") ∷ [])

abbrev pub destination_init_parameters : FieldTypes
destination_init_parameters = struct_of (
    (slice optional, "Domain")
    ∷ (slice (struct ip_init_parameters), "IP")
    ∷ (slice optional, "Region")
    ∷ [])

abbrev pub clients_init_parameters : FieldTypes
clients_init_parameters = struct_of ((optional, "Mac") ∷ [])

abbrev pub networks_init_parameters : FieldTypes
networks_init_parameters = struct_of ((optional, "ID") ∷ [])

abbrev pub source_init_parameters : FieldTypes
source_init_parameters = struct_of (
    (slice (struct clients_init_parameters), "Clients")
    ∷ (slice (struct networks_init_parameters), "Networks")
    ∷ [])

abbrev pub traffic_route_timeouts_init_parameters : FieldTypes
traffic_route_timeouts_init_parameters = struct_of ((optional, "Create Delete Read Update") ∷ [])

abbrev pub traffic_route_init_parameters : FieldTypes
traffic_route_init_parameters = struct_of (
    (optional, "Description")
    ∷ (pointer (struct destination_init_parameters), "Destination")
    ∷ (optional, "Enabled KillSwitchEnabled NetworkID")
    ∷ (pointer (library "v2.Reference"), "NetworkIDRef")
    ∷ (pointer (library "v2.Selector"), "NetworkIDSelector")
    ∷ (optional, "NextHop Site")
    ∷ (pointer (struct source_init_parameters), "Source")
    ∷ (pointer (struct traffic_route_timeouts_init_parameters), "Timeouts")
    ∷ [])

abbrev pub traffic_route_spec : FieldTypes
traffic_route_spec = struct_of (
    (library "v2.ClusterManagedResourceSpec", "ClusterManagedResourceSpec")
    ∷ (struct traffic_route_parameters, "ForProvider")
    ∷ (struct traffic_route_init_parameters, "InitProvider")
    ∷ [])

abbrev pub ip_observation : FieldTypes
ip_observation = struct_of ((optional, "Address") ∷ (slice optional, "Ports") ∷ [])

abbrev pub destination_observation : FieldTypes
destination_observation = struct_of (
    (slice optional, "Domain")
    ∷ (slice (struct ip_observation), "IP")
    ∷ (slice optional, "Region")
    ∷ [])

abbrev pub clients_observation : FieldTypes
clients_observation = struct_of ((optional, "Mac") ∷ [])

abbrev pub networks_observation : FieldTypes
networks_observation = struct_of ((optional, "ID") ∷ [])

abbrev pub source_observation : FieldTypes
source_observation = struct_of (
    (slice (struct clients_observation), "Clients")
    ∷ (slice (struct networks_observation), "Networks")
    ∷ [])

abbrev pub traffic_route_timeouts_observation : FieldTypes
traffic_route_timeouts_observation = struct_of ((optional, "Create Delete Read Update") ∷ [])

abbrev pub traffic_route_observation : FieldTypes
traffic_route_observation = struct_of (
    (optional, "Description")
    ∷ (pointer (struct destination_observation), "Destination")
    ∷ (optional, "Enabled ID KillSwitchEnabled NetworkID NextHop Site")
    ∷ (pointer (struct source_observation), "Source")
    ∷ (pointer (struct traffic_route_timeouts_observation), "Timeouts")
    ∷ [])

abbrev pub traffic_route_status : FieldTypes
traffic_route_status = struct_of (
    (library "v2.ManagedResourceStatus", "ManagedResourceStatus")
    ∷ (struct traffic_route_observation, "AtProvider")
    ∷ [])

abbrev pub traffic_route : FieldTypes
traffic_route = struct_of (
    (flat, "TypeMeta")
    ∷ (library "metav1.ObjectMeta", "ObjectMeta")
    ∷ (struct traffic_route_spec, "Spec")
    ∷ (struct traffic_route_status, "Status")
    ∷ [])

abbrev pub traffic_route_list : FieldTypes
traffic_route_list = struct_of (
    (flat, "TypeMeta")
    ∷ (library "metav1.ListMeta", "ListMeta")
    ∷ (slice (struct traffic_route), "Items")
    ∷ [])
