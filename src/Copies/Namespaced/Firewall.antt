-- ===== src/Copies/Namespaced/Firewall.antt =====
-- apis/namespaced/firewall/v1alpha1/zz_generated.deepcopy.go: its longer methods, and those of the kinds.
use provider_upjet_unifi.Copies.{Method}
use provider_upjet_unifi.Copies.Namespaced.{in_namespace}
use provider_upjet_unifi.Copies.Firewall.GroupMethods
use provider_upjet_unifi.Copies.Firewall.PolicyMethods
use provider_upjet_unifi.Copies.Firewall.RuleMethods
use provider_upjet_unifi.Copies.Firewall.ZoneMethods

abbrev pub namespaced_copy_group_parameters : Method
namespaced_copy_group_parameters = in_namespace GroupMethods.copy_group_parameters

abbrev pub namespaced_copy_group_init_parameters : Method
namespaced_copy_group_init_parameters = in_namespace GroupMethods.copy_group_init_parameters

abbrev pub namespaced_copy_group_observation : Method
namespaced_copy_group_observation = in_namespace GroupMethods.copy_group_observation

abbrev pub namespaced_copy_group : Method
namespaced_copy_group = in_namespace GroupMethods.copy_group

abbrev pub namespaced_copy_group_list : Method
namespaced_copy_group_list = in_namespace GroupMethods.copy_group_list

abbrev pub namespaced_copy_destination_parameters : Method
namespaced_copy_destination_parameters = in_namespace PolicyMethods.copy_destination_parameters

abbrev pub namespaced_copy_schedule_parameters : Method
namespaced_copy_schedule_parameters = in_namespace PolicyMethods.copy_schedule_parameters

abbrev pub namespaced_copy_source_parameters : Method
namespaced_copy_source_parameters = in_namespace PolicyMethods.copy_source_parameters

abbrev pub namespaced_copy_policy_parameters : Method
namespaced_copy_policy_parameters = in_namespace PolicyMethods.copy_policy_parameters

abbrev pub namespaced_copy_destination_init_parameters : Method
namespaced_copy_destination_init_parameters =
    in_namespace PolicyMethods.copy_destination_init_parameters

abbrev pub namespaced_copy_schedule_init_parameters : Method
namespaced_copy_schedule_init_parameters = in_namespace PolicyMethods.copy_schedule_init_parameters

abbrev pub namespaced_copy_source_init_parameters : Method
namespaced_copy_source_init_parameters = in_namespace PolicyMethods.copy_source_init_parameters

abbrev pub namespaced_copy_policy_init_parameters : Method
namespaced_copy_policy_init_parameters = in_namespace PolicyMethods.copy_policy_init_parameters

abbrev pub namespaced_copy_destination_observation : Method
namespaced_copy_destination_observation = in_namespace PolicyMethods.copy_destination_observation

abbrev pub namespaced_copy_schedule_observation : Method
namespaced_copy_schedule_observation = in_namespace PolicyMethods.copy_schedule_observation

abbrev pub namespaced_copy_source_observation : Method
namespaced_copy_source_observation = in_namespace PolicyMethods.copy_source_observation

abbrev pub namespaced_copy_policy_observation : Method
namespaced_copy_policy_observation = in_namespace PolicyMethods.copy_policy_observation

abbrev pub namespaced_copy_policy : Method
namespaced_copy_policy = in_namespace PolicyMethods.copy_policy

abbrev pub namespaced_copy_policy_list : Method
namespaced_copy_policy_list = in_namespace PolicyMethods.copy_policy_list

abbrev pub namespaced_copy_rule_parameters : Method
namespaced_copy_rule_parameters = in_namespace RuleMethods.copy_rule_parameters

abbrev pub namespaced_copy_rule_init_parameters : Method
namespaced_copy_rule_init_parameters = in_namespace RuleMethods.copy_rule_init_parameters

abbrev pub namespaced_copy_rule_observation : Method
namespaced_copy_rule_observation = in_namespace RuleMethods.copy_rule_observation

abbrev pub namespaced_copy_rule_object : Method
namespaced_copy_rule_object = in_namespace RuleMethods.copy_rule_object

abbrev pub namespaced_copy_rule_list : Method
namespaced_copy_rule_list = in_namespace RuleMethods.copy_rule_list

abbrev pub namespaced_copy_zone_parameters : Method
namespaced_copy_zone_parameters = in_namespace ZoneMethods.copy_zone_parameters

abbrev pub namespaced_copy_zone_init_parameters : Method
namespaced_copy_zone_init_parameters = in_namespace ZoneMethods.copy_zone_init_parameters

abbrev pub namespaced_copy_zone_observation : Method
namespaced_copy_zone_observation = in_namespace ZoneMethods.copy_zone_observation

abbrev pub namespaced_copy_zone : Method
namespaced_copy_zone = in_namespace ZoneMethods.copy_zone

abbrev pub namespaced_copy_zone_list : Method
namespaced_copy_zone_list = in_namespace ZoneMethods.copy_zone_list
