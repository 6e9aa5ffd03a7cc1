-- ===== src/Copies/Vpn.antt =====
-- apis/cluster/vpn/v1alpha1: types and methods, kind by kind.
pub mod ClientTypes
pub mod ClientMethods
pub mod PeerTypes
pub mod PeerMethods
pub mod ServerTypes
pub mod ServerMethods
pub mod ToSiteVpnTypes
pub mod ToSiteVpnMethods
