-- ===== src/Copies/NamespacedConfig.antt =====
-- apis/namespaced/v1beta1: types and methods, kind by kind.
pub mod ProviderConfigTypes
pub mod ProviderConfigMethods
pub mod ProviderConfigUsageTypes
pub mod ProviderConfigUsageMethods
pub mod ClusterProviderConfigTypes
pub mod ClusterProviderConfigMethods
