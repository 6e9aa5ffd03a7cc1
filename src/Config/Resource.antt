-- ===== src/Config/Resource.antt =====
-- The part of upjet's config.Resource that the configuration reads or writes.
use provider_upjet_unifi.Base.{String, Option}
use provider_upjet_unifi.Base.Dict.{Dict}
use provider_upjet_unifi.Config.WriteOnly.{Attributes}

-- ujconfig.Reference; the code sets its TerraformName alone.
pub record Reference : Type 0 where
  pub terraform_name : String

-- `E` is the type of external-name configurations; `schema` is the Schema of the resource's
-- TerraformResource, `none` where that is nil.
pub record Resource (E : Type 0) : Type 0 where
  pub name : String
  pub short_group : String
  pub kind : String
  pub references : Dict Reference
  pub external_name : E
  pub schema : Option Attributes

abbrev pub to : String → Reference
to target = record { terraform_name = target }
