-- ===== src/Apis/Scheme.antt =====
-- What AddToScheme of apis/cluster and apis/namespaced makes known: the objects that the packages
-- register, under the group and version of their package.
use package.text.Mathlib.Text.{◌==◌}
use provider_upjet_unifi.Base.{
  String, ◌<>◌, ◌≡◌, refl, Bool, true, false, ◌&&◌, ◌||◌, List, [], ◌∷◌, some,
}
use provider_upjet_unifi.Base.Dict.{member}
pub mod Packages
pub mod Registered

pub record GroupVersion : Type 0 where
  pub group : String
  pub version : String

pub record Package : Type 0 where
  pub group_version : GroupVersion
  pub objects : List (List String)

abbrev pub package_of : GroupVersion → List (List String) → Package
package_of gv objects = record { group_version = gv; objects = objects }

abbrev has_object : String → List (List String) → Bool
has_object kind [] = false
has_object kind (objects ∷ rest) = member kind objects || has_object kind rest

abbrev registers : GroupVersion → String → Package → Bool
registers gv kind p =
    (p.group_version.group == gv.group)
    && (p.group_version.version == gv.version)
    && has_object kind p.objects

-- The scheme knows a kind of a group and version.
unfoldable pub knows : GroupVersion → String → List Package → Bool
knows gv kind [] = false
knows gv kind (p ∷ rest) = registers gv kind p || knows gv kind rest
