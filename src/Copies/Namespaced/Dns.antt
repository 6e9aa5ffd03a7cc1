-- ===== src/Copies/Namespaced/Dns.antt =====
-- apis/namespaced/dns/v1alpha1/zz_generated.deepcopy.go: its longer methods, and those of the kinds.
use provider_upjet_unifi.Copies.{Method}
use provider_upjet_unifi.Copies.Namespaced.{in_namespace}
use provider_upjet_unifi.Copies.Dns.RecordMethods

abbrev pub namespaced_copy_record_parameters : Method
namespaced_copy_record_parameters = in_namespace RecordMethods.copy_record_parameters

abbrev pub namespaced_copy_record_init_parameters : Method
namespaced_copy_record_init_parameters = in_namespace RecordMethods.copy_record_init_parameters

abbrev pub namespaced_copy_record_observation : Method
namespaced_copy_record_observation = in_namespace RecordMethods.copy_record_observation

abbrev pub namespaced_copy_record_object : Method
namespaced_copy_record_object = in_namespace RecordMethods.copy_record_object

abbrev pub namespaced_copy_record_list : Method
namespaced_copy_record_list = in_namespace RecordMethods.copy_record_list
