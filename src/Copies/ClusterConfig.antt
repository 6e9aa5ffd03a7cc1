-- ===== src/Copies/ClusterConfig.antt =====
-- apis/cluster/v1beta1: types and methods, kind by kind.
pub mod ProviderConfigTypes
pub mod ProviderConfigMethods
pub mod ProviderConfigUsageTypes
pub mod ProviderConfigUsageMethods
