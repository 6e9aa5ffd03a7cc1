-- ===== src/Copies/Dns.antt =====
-- apis/cluster/dns/v1alpha1: types and methods, kind by kind.
pub mod RecordTypes
pub mod RecordMethods
