-- ===== src/Copies/Namespaced/Device.antt =====
-- apis/namespaced/device/v1alpha1/zz_generated.deepcopy.go: its longer methods, and those of the kinds.
use provider_upjet_unifi.Copies.{Method}
use provider_upjet_unifi.Copies.Namespaced.{in_namespace}
use provider_upjet_unifi.Copies.Device.ClientMethods
use provider_upjet_unifi.Copies.Device.QosRateMethods
use provider_upjet_unifi.Copies.Device.SupervisorMethods

abbrev pub namespaced_copy_client_parameters : Method
namespaced_copy_client_parameters = in_namespace ClientMethods.copy_client_parameters

abbrev pub namespaced_copy_client_init_parameters : Method
namespaced_copy_client_init_parameters = in_namespace ClientMethods.copy_client_init_parameters

abbrev pub namespaced_copy_client_observation : Method
namespaced_copy_client_observation = in_namespace ClientMethods.copy_client_observation

abbrev pub namespaced_copy_client : Method
namespaced_copy_client = in_namespace ClientMethods.copy_client

abbrev pub namespaced_copy_client_list : Method
namespaced_copy_client_list = in_namespace ClientMethods.copy_client_list

abbrev pub namespaced_copy_qos_rate_observation2 : Method
namespaced_copy_qos_rate_observation2 = in_namespace QosRateMethods.copy_qos_rate_observation2

abbrev pub namespaced_copy_qos_rate : Method
namespaced_copy_qos_rate = in_namespace QosRateMethods.copy_qos_rate

abbrev pub namespaced_copy_qos_rate_list : Method
namespaced_copy_qos_rate_list = in_namespace QosRateMethods.copy_qos_rate_list

abbrev pub namespaced_copy_supervisor_parameters : Method
namespaced_copy_supervisor_parameters = in_namespace SupervisorMethods.copy_supervisor_parameters

abbrev pub namespaced_copy_supervisor_init_parameters : Method
namespaced_copy_supervisor_init_parameters =
    in_namespace SupervisorMethods.copy_supervisor_init_parameters

abbrev pub namespaced_copy_supervisor_observation : Method
namespaced_copy_supervisor_observation = in_namespace SupervisorMethods.copy_supervisor_observation

abbrev pub namespaced_copy_supervisor : Method
namespaced_copy_supervisor = in_namespace SupervisorMethods.copy_supervisor

abbrev pub namespaced_copy_supervisor_list : Method
namespaced_copy_supervisor_list = in_namespace SupervisorMethods.copy_supervisor_list
