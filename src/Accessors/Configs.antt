-- ===== src/Accessors/Configs.antt =====
-- apis/*/v1beta1/zz_generated.pc.go, zz_generated.pcu.go and zz_generated.pculist.go: the accessors
-- of provider configurations and of their usages.
use provider_upjet_unifi.Base.{List}
use provider_upjet_unifi.Accessors.{Shapes, Conditioned}
use provider_upjet_unifi.Accessors.Items.{Items, get_items}

module _ (S : Shapes) (Int64 : Type 0) where
  pub record ProviderConfigStatus : Type 0 where
    pub conditioned : S.Status
    pub users : Int64

  pub record Config : Type 0 where
    pub status : ProviderConfigStatus
    pub rest : S.Rest

  pub record ConfigAccessors : Type 0 where
    pub get_condition : S.ConditionType → Config → S.Condition
    pub get_users : Config → Int64
    pub set_conditions : List S.Condition → Config → Config
    pub set_users : Int64 → Config → Config

module _ {S : Shapes} {Int64 : Type 0} (C : Conditioned S) where
  abbrev pub config_accessors : ConfigAccessors S Int64
  config_accessors = record {
    get_condition = λ ct p. C.get_condition ct p.status.conditioned;
    get_users = λ p. p.status.users;
    set_conditions = λ c p. record p {
      status = record p.status { conditioned = C.set_conditions c p.status.conditioned };
    };
    set_users = λ i p. record p { status = record p.status { users = i } };
  }

-- The references that a usage holds are of types of Crossplane: the one to the provider
-- configuration differs between the scopes.
module _ (ConfigReference TypedReference Rest : Type 0) where
  pub record Usage : Type 0 where
    pub provider_config_reference : ConfigReference
    pub resource_reference : TypedReference
    pub rest : Rest

  pub record UsageAccessors : Type 0 where
    pub get_provider_config_reference : Usage → ConfigReference
    pub get_resource_reference : Usage → TypedReference
    pub set_provider_config_reference : ConfigReference → Usage → Usage
    pub set_resource_reference : TypedReference → Usage → Usage

  abbrev pub usage_accessors : UsageAccessors
  usage_accessors = record {
    get_provider_config_reference = λ p. p.provider_config_reference;
    get_resource_reference = λ p. p.resource_reference;
    set_provider_config_reference = λ r p. record p { provider_config_reference = r };
    set_resource_reference = λ r p. record p { resource_reference = r };
  }

abbrev ConfigMethods : Type 1
ConfigMethods = (S : Shapes) (Int64 : Type 0) → Conditioned S → ConfigAccessors S Int64

abbrev pub cluster_config_accessors : ConfigMethods
cluster_config_accessors S Int64 C = config_accessors C

abbrev pub namespaced_config_accessors : ConfigMethods
namespaced_config_accessors S Int64 C = config_accessors C

abbrev pub namespaced_cluster_config_accessors : ConfigMethods
namespaced_cluster_config_accessors S Int64 C = config_accessors C

abbrev UsageMethods : Type 1
UsageMethods =
    (Reference TypedReference Rest : Type 0) → UsageAccessors Reference TypedReference Rest

-- The reference is a Reference.
abbrev pub cluster_usage_accessors : UsageMethods
cluster_usage_accessors Reference TypedReference Rest =
    usage_accessors Reference TypedReference Rest

-- The reference is a ProviderConfigReference.
abbrev pub namespaced_usage_accessors : UsageMethods
namespaced_usage_accessors ProviderConfigReference TypedReference Rest =
    usage_accessors ProviderConfigReference TypedReference Rest

abbrev pub cluster_usage_items : Items
cluster_usage_items ProviderConfigUsage = get_items

abbrev pub namespaced_usage_items : Items
namespaced_usage_items ProviderConfigUsage = get_items
