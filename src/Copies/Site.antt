-- ===== src/Copies/Site.antt =====
-- apis/cluster/site/v1alpha1: types and methods, kind by kind.
pub mod SiteTypes
pub mod SiteMethods
