-- ===== src/Terraformed/Tables.antt =====
-- apis/*/*/v1alpha1/zz_*_terraformed.go: what GetTerraformResourceType, GetConnectionDetailsMapping and
-- GetTerraformSchemaVersion of each kind return; the two scopes return the same.
use provider_upjet_unifi.Base.{[], ◌∷◌}
use provider_upjet_unifi.Terraformed.{Constants}

abbrev pub account_constants : Constants
account_constants = record {
  terraform_resource_type = "unifi_account";
  connection_details_mapping = ("password", "passwordSecretRef") ∷ [];
  terraform_schema_version = 0;
}

abbrev pub device_client_constants : Constants
device_client_constants = record {
  terraform_resource_type = "unifi_client";
  connection_details_mapping = [];
  terraform_schema_version = 0;
}

abbrev pub device_constants : Constants
device_constants = record {
  terraform_resource_type = "unifi_device";
  connection_details_mapping = ("x_baresip_password", "xBaresipPasswordSecretRef") ∷ [];
  terraform_schema_version = 2;
}

abbrev pub device_qos_rate_constants : Constants
device_qos_rate_constants = record {
  terraform_resource_type = "unifi_client_qos_rate";
  connection_details_mapping = [];
  terraform_schema_version = 0;
}

abbrev pub device_supervisor_constants : Constants
device_supervisor_constants = record {
  terraform_resource_type = "unifi_power_supervisor";
  connection_details_mapping = [];
  terraform_schema_version = 1;
}

abbrev pub dns_record_constants : Constants
dns_record_constants = record {
  terraform_resource_type = "unifi_dns_record";
  connection_details_mapping = [];
  terraform_schema_version = 1;
}

abbrev pub firewall_group_constants : Constants
firewall_group_constants = record {
  terraform_resource_type = "unifi_firewall_group";
  connection_details_mapping = [];
  terraform_schema_version = 0;
}

abbrev pub firewall_policy_constants : Constants
firewall_policy_constants = record {
  terraform_resource_type = "unifi_firewall_policy";
  connection_details_mapping = [];
  terraform_schema_version = 1;
}

abbrev pub firewall_rule_constants : Constants
firewall_rule_constants = record {
  terraform_resource_type = "unifi_firewall_rule";
  connection_details_mapping = [];
  terraform_schema_version = 0;
}

abbrev pub firewall_zone_constants : Constants
firewall_zone_constants = record {
  terraform_resource_type = "unifi_firewall_zone";
  connection_details_mapping = [];
  terraform_schema_version = 0;
}

abbrev pub network_bgp_constants : Constants
network_bgp_constants = record {
  terraform_resource_type = "unifi_bgp";
  connection_details_mapping = [];
  terraform_schema_version = 0;
}

abbrev pub network_constants : Constants
network_constants = record {
  terraform_resource_type = "unifi_network";
  connection_details_mapping = [];
  terraform_schema_version = 1;
}

abbrev pub network_wan_constants : Constants
network_wan_constants = record {
  terraform_resource_type = "unifi_wan";
  connection_details_mapping =
      ("password", "passwordSecretRef") ∷ ("password_wo", "passwordWoSecretRef") ∷ [];
  terraform_schema_version = 0;
}

abbrev pub port_forward_constants : Constants
port_forward_constants = record {
  terraform_resource_type = "unifi_port_forward";
  connection_details_mapping = [];
  terraform_schema_version = 0;
}

abbrev pub port_profile_constants : Constants
port_profile_constants = record {
  terraform_resource_type = "unifi_port_profile";
  connection_details_mapping = [];
  terraform_schema_version = 1;
}

abbrev pub radius_profile_constants : Constants
radius_profile_constants = record {
  terraform_resource_type = "unifi_radius_profile";
  connection_details_mapping =
      ("acct_server[*].secret", "acctServer[*].secretSecretRef")
      ∷ ("auth_server[*].secret", "authServer[*].secretSecretRef")
      ∷ [];
  terraform_schema_version = 1;
}

abbrev pub radius_user_constants : Constants
radius_user_constants = record {
  terraform_resource_type = "unifi_radius_user";
  connection_details_mapping = ("password", "passwordSecretRef") ∷ [];
  terraform_schema_version = 0;
}

abbrev pub route_static_route_constants : Constants
route_static_route_constants = record {
  terraform_resource_type = "unifi_static_route";
  connection_details_mapping = [];
  terraform_schema_version = 0;
}

abbrev pub route_traffic_route_constants : Constants
route_traffic_route_constants = record {
  terraform_resource_type = "unifi_traffic_route";
  connection_details_mapping = [];
  terraform_schema_version = 0;
}

abbrev pub setting_dns_constants : Constants
setting_dns_constants = record {
  terraform_resource_type = "unifi_dynamic_dns";
  connection_details_mapping = ("password", "passwordSecretRef") ∷ [];
  terraform_schema_version = 0;
}

abbrev pub setting_constants : Constants
setting_constants = record {
  terraform_resource_type = "unifi_setting";
  connection_details_mapping =
      ("mgmt.ssh_password", "mgmt.sshPasswordSecretRef")
      ∷ ("radius.secret", "radius.secretSecretRef")
      ∷ [];
  terraform_schema_version = 1;
}

abbrev pub site_constants : Constants
site_constants = record {
  terraform_resource_type = "unifi_site";
  connection_details_mapping = [];
  terraform_schema_version = 0;
}

abbrev pub vpn_client_constants : Constants
vpn_client_constants = record {
  terraform_resource_type = "unifi_vpn_client";
  connection_details_mapping =
      ("wireguard.configuration.content", "wireguard.configuration.contentSecretRef")
      ∷ ("wireguard.peer.public_key", "wireguard.peer.publicKeySecretRef")
      ∷ ("wireguard.preshared_key", "wireguard.presharedKeySecretRef")
      ∷ ("wireguard.private_key", "wireguard.privateKeySecretRef")
      ∷ ("wireguard.private_key_wo", "wireguard.privateKeyWoSecretRef")
      ∷ [];
  terraform_schema_version = 0;
}

abbrev pub vpn_peer_constants : Constants
vpn_peer_constants = record {
  terraform_resource_type = "unifi_wireguard_peer";
  connection_details_mapping =
      ("preshared_key", "presharedKeySecretRef")
      ∷ ("preshared_key_wo", "presharedKeyWoSecretRef")
      ∷ [];
  terraform_schema_version = 0;
}

abbrev pub vpn_server_constants : Constants
vpn_server_constants = record {
  terraform_resource_type = "unifi_vpn_server";
  connection_details_mapping =
      ("l2tp.pre_shared_key", "l2tp.preSharedKeySecretRef")
      ∷ ("openvpn.auth_key", "status.atProvider.openvpn.authKey")
      ∷ ("openvpn.ca_crt", "status.atProvider.openvpn.caCrt")
      ∷ ("openvpn.ca_key", "status.atProvider.openvpn.caKey")
      ∷ ("openvpn.dh_key", "status.atProvider.openvpn.dhKey")
      ∷ ("openvpn.server_crt", "status.atProvider.openvpn.serverCrt")
      ∷ ("openvpn.server_key", "status.atProvider.openvpn.serverKey")
      ∷ ("openvpn.shared_client_crt", "status.atProvider.openvpn.sharedClientCrt")
      ∷ ("openvpn.shared_client_key", "status.atProvider.openvpn.sharedClientKey")
      ∷ ("wireguard.private_key", "wireguard.privateKeySecretRef")
      ∷ [];
  terraform_schema_version = 0;
}

abbrev pub vpn_to_site_vpn_constants : Constants
vpn_to_site_vpn_constants = record {
  terraform_resource_type = "unifi_site_to_site_vpn";
  connection_details_mapping =
      ("pre_shared_key", "preSharedKeySecretRef")
      ∷ ("pre_shared_key_wo", "preSharedKeyWoSecretRef")
      ∷ [];
  terraform_schema_version = 1;
}

abbrev pub wlan_ap_group_constants : Constants
wlan_ap_group_constants = record {
  terraform_resource_type = "unifi_ap_group";
  connection_details_mapping = [];
  terraform_schema_version = 0;
}

abbrev pub wlan_constants : Constants
wlan_constants = record {
  terraform_resource_type = "unifi_wlan";
  connection_details_mapping =
      ("passphrase", "passphraseSecretRef")
      ∷ ("passphrase_wo", "passphraseWoSecretRef")
      ∷ ("private_preshared_keys[*].password", "privatePresharedKeys[*].passwordSecretRef")
      ∷ [];
  terraform_schema_version = 1;
}
