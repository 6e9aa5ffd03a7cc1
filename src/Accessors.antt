-- ===== src/Accessors.antt =====
-- apis/*/*/v1alpha1/zz_generated.managed.go and zz_generated.managedlist.go: the accessors through
-- which crossplane-runtime handles a resource. The types of Crossplane are `Shapes`; its conditioned
-- status, with GetCondition and SetConditions, is the record `Conditioned`.
use provider_upjet_unifi.Base.{ℕ, zero, suc, Option, none, some, List, [], ◌∷◌}
pub mod Items
pub mod Kinds
pub mod Configs

pub record Shapes : Type 1 where
  pub ConditionType : Type 0
  pub Condition : Type 0
  pub DeletionPolicy : Type 0
  pub ManagementPolicies : Type 0
  pub ConfigReference : Type 0
  pub SecretReference : Type 0
  pub Status : Type 0
  -- the other fields of a resource
  pub Rest : Type 0

pub record Conditioned (S : Shapes) : Type 0 where
  pub get_condition : S.ConditionType → S.Status → S.Condition
  pub set_conditions : List S.Condition → S.Status → S.Status

module _ (S : Shapes) where
  -- The managed part of a resource's spec, and its status. A namespaced resource has no deletion policy.
  pub record Resource : Type 0 where
    pub deletion_policy : S.DeletionPolicy
    pub management_policies : S.ManagementPolicies
    pub provider_config_reference : Option S.ConfigReference
    pub write_connection_secret_to_reference : Option S.SecretReference
    pub status : S.Status
    pub rest : S.Rest

  -- The accessors that the kinds of both scopes have.
  pub record Accessors : Type 0 where
    pub get_condition : S.ConditionType → Resource → S.Condition
    pub get_management_policies : Resource → S.ManagementPolicies
    pub get_provider_config_reference : Resource → Option S.ConfigReference
    pub get_write_connection_secret_to_reference : Resource → Option S.SecretReference
    pub set_conditions : List S.Condition → Resource → Resource
    pub set_management_policies : S.ManagementPolicies → Resource → Resource
    pub set_provider_config_reference : Option S.ConfigReference → Resource → Resource
    pub set_write_connection_secret_to_reference : Option S.SecretReference → Resource → Resource

  -- Those of the cluster scope have two more.
  pub record ClusterAccessors : Type 0 where
    pub common : Accessors
    pub get_deletion_policy : Resource → S.DeletionPolicy
    pub set_deletion_policy : S.DeletionPolicy → Resource → Resource

module _ {S : Shapes} (C : Conditioned S) where
  abbrev pub accessors : Accessors S
  accessors = record {
    get_condition = λ ct mg. C.get_condition ct mg.status;
    get_management_policies = λ mg. mg.management_policies;
    get_provider_config_reference = λ mg. mg.provider_config_reference;
    get_write_connection_secret_to_reference = λ mg. mg.write_connection_secret_to_reference;
    set_conditions = λ c mg. record mg { status = C.set_conditions c mg.status };
    set_management_policies = λ r mg. record mg { management_policies = r };
    set_provider_config_reference = λ r mg. record mg { provider_config_reference = r };
    set_write_connection_secret_to_reference =
        λ r mg. record mg { write_connection_secret_to_reference = r };
  }

  abbrev pub cluster_accessors : ClusterAccessors S
  cluster_accessors = record {
    common = accessors;
    get_deletion_policy = λ mg. mg.deletion_policy;
    set_deletion_policy = λ r mg. record mg { deletion_policy = r };
  }

abbrev pub Namespaced : Type 1
Namespaced = (S : Shapes) → Conditioned S → Accessors S

abbrev pub Cluster : Type 1
Cluster = (S : Shapes) → Conditioned S → ClusterAccessors S
