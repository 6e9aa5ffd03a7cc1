-- ===== src/Copies/Radius.antt =====
-- apis/cluster/radius/v1alpha1: types and methods, kind by kind.
pub mod ProfileTypes
pub mod ProfileMethods
pub mod UserTypes
pub mod UserMethods
