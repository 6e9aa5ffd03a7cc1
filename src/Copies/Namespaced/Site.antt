-- ===== src/Copies/Namespaced/Site.antt =====
-- apis/namespaced/site/v1alpha1/zz_generated.deepcopy.go: its longer methods, and those of the kinds.
use provider_upjet_unifi.Copies.{Method}
use provider_upjet_unifi.Copies.Namespaced.{in_namespace}
use provider_upjet_unifi.Copies.Site.SiteMethods

abbrev pub namespaced_copy_site : Method
namespaced_copy_site = in_namespace SiteMethods.copy_site

abbrev pub namespaced_copy_site_list : Method
namespaced_copy_site_list = in_namespace SiteMethods.copy_site_list
