-- ===== src/Copies/Namespaced/Account.antt =====
-- apis/namespaced/account/v1alpha1/zz_generated.deepcopy.go: its longer methods, and those of the kinds.
use provider_upjet_unifi.Copies.{Method}
use provider_upjet_unifi.Copies.Namespaced.{in_namespace}
use provider_upjet_unifi.Copies.Account.AccountMethods

abbrev pub namespaced_copy_account_parameters : Method
namespaced_copy_account_parameters = in_namespace AccountMethods.copy_account_parameters

abbrev pub namespaced_copy_account_init_parameters : Method
namespaced_copy_account_init_parameters = in_namespace AccountMethods.copy_account_init_parameters

abbrev pub namespaced_copy_account_observation : Method
namespaced_copy_account_observation = in_namespace AccountMethods.copy_account_observation

abbrev pub namespaced_copy_account : Method
namespaced_copy_account = in_namespace AccountMethods.copy_account

abbrev pub namespaced_copy_account_list : Method
namespaced_copy_account_list = in_namespace AccountMethods.copy_account_list
