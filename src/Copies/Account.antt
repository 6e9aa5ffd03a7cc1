-- ===== src/Copies/Account.antt =====
-- apis/cluster/account/v1alpha1: types and methods, kind by kind.
pub mod AccountTypes
pub mod AccountMethods
