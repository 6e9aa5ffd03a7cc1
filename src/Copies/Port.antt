-- ===== src/Copies/Port.antt =====
-- apis/cluster/port/v1alpha1: types and methods, kind by kind.
pub mod ForwardTypes
pub mod ForwardMethods
pub mod ProfileTypes
pub mod ProfileMethods
