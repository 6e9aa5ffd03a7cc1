-- ===== src/Copies/Namespaced/Radius.antt =====
-- apis/namespaced/radius/v1alpha1/zz_generated.deepcopy.go: its longer methods, and those of the kinds.
use provider_upjet_unifi.Copies.{Method}
use provider_upjet_unifi.Copies.Namespaced.{in_namespace}
use provider_upjet_unifi.Copies.Radius.ProfileMethods
use provider_upjet_unifi.Copies.Radius.UserMethods

abbrev pub namespaced_copy_profile_parameters : Method
namespaced_copy_profile_parameters = in_namespace ProfileMethods.copy_profile_parameters

abbrev pub namespaced_copy_profile_init_parameters : Method
namespaced_copy_profile_init_parameters = in_namespace ProfileMethods.copy_profile_init_parameters

abbrev pub namespaced_copy_profile_observation : Method
namespaced_copy_profile_observation = in_namespace ProfileMethods.copy_profile_observation

abbrev pub namespaced_copy_profile : Method
namespaced_copy_profile = in_namespace ProfileMethods.copy_profile

abbrev pub namespaced_copy_profile_list : Method
namespaced_copy_profile_list = in_namespace ProfileMethods.copy_profile_list

abbrev pub namespaced_copy_user_parameters : Method
namespaced_copy_user_parameters = in_namespace UserMethods.copy_user_parameters

abbrev pub namespaced_copy_user_init_parameters : Method
namespaced_copy_user_init_parameters = in_namespace UserMethods.copy_user_init_parameters

abbrev pub namespaced_copy_user_observation : Method
namespaced_copy_user_observation = in_namespace UserMethods.copy_user_observation

abbrev pub namespaced_copy_user : Method
namespaced_copy_user = in_namespace UserMethods.copy_user

abbrev pub namespaced_copy_user_list : Method
namespaced_copy_user_list = in_namespace UserMethods.copy_user_list
