-- ===== src/Copies/Wlan.antt =====
-- apis/cluster/wlan/v1alpha1: types and methods, kind by kind.
pub mod ApGroupTypes
pub mod ApGroupMethods
pub mod WlanTypes
pub mod WlanMethods
