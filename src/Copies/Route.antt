-- ===== src/Copies/Route.antt =====
-- apis/cluster/route/v1alpha1: types and methods, kind by kind.
pub mod StaticRouteTypes
pub mod StaticRouteMethods
pub mod TrafficRouteTypes
pub mod TrafficRouteMethods
