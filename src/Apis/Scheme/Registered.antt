-- ===== src/Apis/Scheme/Registered.antt =====
-- The kinds that the controllers reconcile are in the scheme.
use provider_upjet_unifi.Base.{String, ◌<>◌, ◌≡◌, refl, Bool, true, ◌&&◌, List, some}
use provider_upjet_unifi.Base.Dict
use provider_upjet_unifi.Base.Dict.{Dict, all_entries, all_entries-get, and_left, and_right}
use provider_upjet_unifi.Text.{Text}
use provider_upjet_unifi.Config.Provider.{Upjet, options, namespaced_options}
use provider_upjet_unifi.Controller.{Scope, cluster, namespaced}
use provider_upjet_unifi.Controller.Kinds.{ManagedKind}
use provider_upjet_unifi.Controller.Coverage.{kinds}
use provider_upjet_unifi.Apis.Scheme.{GroupVersion, Package, knows}
use provider_upjet_unifi.Apis.Scheme.Packages.{cluster_add_to_schemes, namespaced_add_to_schemes}

abbrev pub add_to_schemes : Scope → List Package
add_to_schemes cluster = cluster_add_to_schemes
add_to_schemes namespaced = namespaced_add_to_schemes

-- The version of a kind's API, in a group below the root group.
abbrev pub version_below : String → ManagedKind → GroupVersion
version_below root k = record { group = k.group <> "." <> root; version = "v1alpha1" }

abbrev is_known : List Package → String → String → ManagedKind → Bool
is_known packages root name k =
    knows (version_below root k) k.kind packages
    && knows (version_below root k) (k.kind <> "List") packages

known_in_cluster : all_entries (is_known cluster_add_to_schemes "unifi.crossplane.io") kinds ≡ true
unfolding all_entries kinds knows
known_in_cluster = refl

known_in_namespaced :
    all_entries (is_known namespaced_add_to_schemes "unifi.m.crossplane.io") kinds ≡ true
unfolding all_entries kinds knows
known_in_namespaced = refl

module _ {E : Type 0} (U : Upjet E) (identifier_from_provider : E) (lower_camel : Text → Text)
    (include_list : List String) where
  -- The root group that GetProvider and GetProviderNamespaced give upjet.
  abbrev pub root_group : Scope → String
  root_group cluster = (options U identifier_from_provider lower_camel include_list).root_group
  root_group namespaced =
      (namespaced_options U identifier_from_provider lower_camel include_list).root_group

  abbrev pub IsKnown : Scope → ManagedKind → Type 0
  IsKnown scope k =
      (knows (version_below (root_group scope) k) k.kind (add_to_schemes scope) ≡ true)
      × (knows (version_below (root_group scope) k) (k.kind <> "List") (add_to_schemes scope)
          ≡ true)

  -- In either scope, AddToScheme makes the Kind of every controller and its list known, in version
  -- v1alpha1 of the group that the kind's group forms with the root group of the scope's provider.
  pub kinds-IsKnown :
      (scope : Scope) (name : String) (k : ManagedKind)
      → Dict.get name kinds ≡ some k
      → IsKnown scope k
  kinds-IsKnown cluster name k h =
      let both =
        all_entries-get (is_known cluster_add_to_schemes "unifi.crossplane.io") kinds name k
          known_in_cluster h in
      (and_left _ _ both, and_right (knows (version_below "unifi.crossplane.io" k) k.kind _) _ both)
  kinds-IsKnown namespaced name k h =
      let both =
        all_entries-get (is_known namespaced_add_to_schemes "unifi.m.crossplane.io") kinds name k
          known_in_namespaced h in
      (
        and_left _ _ both,
        and_right (knows (version_below "unifi.m.crossplane.io" k) k.kind _) _ both,
      )
