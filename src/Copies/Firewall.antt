-- ===== src/Copies/Firewall.antt =====
-- apis/cluster/firewall/v1alpha1: types and methods, kind by kind.
pub mod GroupTypes
pub mod GroupMethods
pub mod PolicyTypes
pub mod PolicyMethods
pub mod RuleTypes
pub mod RuleMethods
pub mod ZoneTypes
pub mod ZoneMethods
