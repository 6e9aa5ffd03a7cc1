-- ===== src/Copies/Namespaced/Route.antt =====
-- apis/namespaced/route/v1alpha1/zz_generated.deepcopy.go: its longer methods, and those of the kinds.
use provider_upjet_unifi.Copies.{Method}
use provider_upjet_unifi.Copies.Namespaced.{in_namespace}
use provider_upjet_unifi.Copies.Route.StaticRouteMethods
use provider_upjet_unifi.Copies.Route.TrafficRouteMethods

abbrev pub namespaced_copy_static_route_parameters : Method
namespaced_copy_static_route_parameters =
    in_namespace StaticRouteMethods.copy_static_route_parameters

abbrev pub namespaced_copy_static_route_init_parameters : Method
namespaced_copy_static_route_init_parameters =
    in_namespace StaticRouteMethods.copy_static_route_init_parameters

abbrev pub namespaced_copy_static_route_observation : Method
namespaced_copy_static_route_observation =
    in_namespace StaticRouteMethods.copy_static_route_observation

abbrev pub namespaced_copy_static_route : Method
namespaced_copy_static_route = in_namespace StaticRouteMethods.copy_static_route

abbrev pub namespaced_copy_static_route_list : Method
namespaced_copy_static_route_list = in_namespace StaticRouteMethods.copy_static_route_list

abbrev pub namespaced_copy_destination_parameters : Method
namespaced_copy_destination_parameters =
    in_namespace TrafficRouteMethods.copy_destination_parameters

abbrev pub namespaced_copy_traffic_route_parameters : Method
namespaced_copy_traffic_route_parameters =
    in_namespace TrafficRouteMethods.copy_traffic_route_parameters

abbrev pub namespaced_copy_destination_init_parameters : Method
namespaced_copy_destination_init_parameters =
    in_namespace TrafficRouteMethods.copy_destination_init_parameters

abbrev pub namespaced_copy_traffic_route_init_parameters : Method
namespaced_copy_traffic_route_init_parameters =
    in_namespace TrafficRouteMethods.copy_traffic_route_init_parameters

abbrev pub namespaced_copy_destination_observation : Method
namespaced_copy_destination_observation =
    in_namespace TrafficRouteMethods.copy_destination_observation

abbrev pub namespaced_copy_traffic_route_observation : Method
namespaced_copy_traffic_route_observation =
    in_namespace TrafficRouteMethods.copy_traffic_route_observation

abbrev pub namespaced_copy_traffic_route : Method
namespaced_copy_traffic_route = in_namespace TrafficRouteMethods.copy_traffic_route

abbrev pub namespaced_copy_traffic_route_list : Method
namespaced_copy_traffic_route_list = in_namespace TrafficRouteMethods.copy_traffic_route_list
