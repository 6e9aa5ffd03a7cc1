-- ===== src/Copies/Device.antt =====
-- apis/cluster/device/v1alpha1: types and methods, kind by kind.
pub mod ClientTypes
pub mod ClientMethods
pub mod QosRateTypes
pub mod QosRateMethods
pub mod SupervisorTypes
pub mod SupervisorMethods
