-- ===== src/Copies/Namespaced/Port.antt =====
-- apis/namespaced/port/v1alpha1/zz_generated.deepcopy.go: its longer methods, and those of the kinds.
use provider_upjet_unifi.Copies.{Method}
use provider_upjet_unifi.Copies.Namespaced.{in_namespace}
use provider_upjet_unifi.Copies.Port.ForwardMethods
use provider_upjet_unifi.Copies.Port.ProfileMethods

abbrev pub namespaced_copy_source_limiting_parameters : Method
namespaced_copy_source_limiting_parameters =
    in_namespace ForwardMethods.copy_source_limiting_parameters

abbrev pub namespaced_copy_forward_parameters : Method
namespaced_copy_forward_parameters = in_namespace ForwardMethods.copy_forward_parameters

abbrev pub namespaced_copy_source_limiting_init_parameters : Method
namespaced_copy_source_limiting_init_parameters =
    in_namespace ForwardMethods.copy_source_limiting_init_parameters

abbrev pub namespaced_copy_forward_init_parameters : Method
namespaced_copy_forward_init_parameters = in_namespace ForwardMethods.copy_forward_init_parameters

abbrev pub namespaced_copy_forward_observation : Method
namespaced_copy_forward_observation = in_namespace ForwardMethods.copy_forward_observation

abbrev pub namespaced_copy_forward : Method
namespaced_copy_forward = in_namespace ForwardMethods.copy_forward

abbrev pub namespaced_copy_forward_list : Method
namespaced_copy_forward_list = in_namespace ForwardMethods.copy_forward_list

abbrev pub namespaced_copy_profile_parameters : Method
namespaced_copy_profile_parameters = in_namespace ProfileMethods.copy_profile_parameters

abbrev pub namespaced_copy_profile_init_parameters : Method
namespaced_copy_profile_init_parameters = in_namespace ProfileMethods.copy_profile_init_parameters

abbrev pub namespaced_copy_profile_observation : Method
namespaced_copy_profile_observation = in_namespace ProfileMethods.copy_profile_observation

abbrev pub namespaced_copy_profile : Method
namespaced_copy_profile = in_namespace ProfileMethods.copy_profile

abbrev pub namespaced_copy_profile_list : Method
namespaced_copy_profile_list = in_namespace ProfileMethods.copy_profile_list
