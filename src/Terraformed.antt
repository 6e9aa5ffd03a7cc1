-- ===== src/Terraformed.antt =====
-- apis/*/*/v1alpha1/zz_*_terraformed.go: how upjet reads and writes a managed resource. The generated
-- methods are one template; `Tables` has what differs from kind to kind. json.TFParser, mergo and the
-- late initializer of upjet are the record `Runtime`, over the opaque types of `Shapes`.
use provider_upjet_unifi.Base.{
  ℕ, String, ◌<>◌, Bool, true, false, not, Option, none, some, List, [], ◌∷◌, if◌then◌else◌,
}
use provider_upjet_unifi.Base.Dict.{Dict}
pub mod Merging
pub mod Observing
pub mod Tables
pub mod Kinds
pub mod Details

-- `Attributes` is map[string]any, `Parameters` and `InitParameters` are the structs of spec.forProvider
-- and spec.initProvider, `Observed` is status.atProvider without its ID.
pub record Shapes : Type 1 where
  pub Parameters : Type 0
  pub InitParameters : Type 0
  pub Observed : Type 0
  pub Attributes : Type 0
  pub Bytes : Type 0
  pub Failure : Type 0
  pub MergeOther : Type 0
  pub Name : Type 0
  pub Filter : Type 0

module _ (S : Shapes) where
  -- An error of another package, and errors.Wrap.
  pub data Error : Type 0 where
    foreign : S.Failure → Error
    wrap : Error → String → Error

  pub data Marshalled : Type 0 where
    marshalled : S.Bytes → Marshalled
    unmarshallable : S.Failure → Marshalled

  pub record AtProvider : Type 0 where
    pub id : Option String
    pub rest : S.Observed

  -- mergo.Config
  pub record MergeConfig : Type 0 where
    pub overwrite : Bool
    pub other : S.MergeOther

  pub record Object : Type 0 where
    pub namespace : String
    pub name : String
    pub for_provider : S.Parameters
    pub init_provider : S.InitParameters
    pub at_provider : AtProvider

  -- A call that fills what is behind a pointer returns what it leaves there, beside its result.
  pub record Runtime : Type 0 where
    pub no_map : S.Attributes
    pub empty_map : S.Attributes
    pub zero_parameters : S.Parameters
    pub marshal_parameters : S.Parameters → Marshalled
    pub marshal_init_parameters : S.InitParameters → Marshalled
    pub marshal_observation : AtProvider → Marshalled
    pub marshal_attributes : S.Attributes → Marshalled
    pub unmarshal_attributes : S.Bytes → S.Attributes → S.Attributes × Option S.Failure
    pub unmarshal_parameters : S.Bytes → S.Parameters → S.Parameters × Option S.Failure
    pub unmarshal_observation : S.Bytes → AtProvider → AtProvider × Option S.Failure
    pub default_config : MergeConfig
    pub with_slice_deep_copy : MergeConfig → MergeConfig
    pub merge :
        S.Attributes
        → S.Attributes
        → List (MergeConfig → MergeConfig)
        → S.Attributes × Option S.Failure
    pub name_wildcard : S.Name
    pub omit_empty_filter : S.Name → S.Filter
    pub late_initialize :
        List S.Filter → S.Parameters → S.Parameters → S.Parameters × (Bool × Option S.Failure)

-- What the generated methods of a kind return as constants.
pub record Constants : Type 0 where
  pub terraform_resource_type : String
  pub connection_details_mapping : Dict String
  pub terraform_schema_version : ℕ

abbrev pub id_or_empty : Option String → String
id_or_empty none = ""
id_or_empty (some id) = id

module _ {S : Shapes} where
  abbrev pub as_error : Option S.Failure → Option (Error S)
  as_error none = none
  as_error (some e) = some (foreign e)

  -- `"%s/%s"`
  abbrev pub quoted_name : Object S → String
  quoted_name o = "\"" <> (o.namespace <> ("/" <> (o.name <> "\"")))

  abbrev pub with_for_provider : S.Parameters → Object S → Object S
  with_for_provider p o = record {
    namespace = o.namespace;
    name = o.name;
    for_provider = p;
    init_provider = o.init_provider;
    at_provider = o.at_provider;
  }

  abbrev pub with_at_provider : AtProvider S → Object S → Object S
  with_at_provider a o = record {
    namespace = o.namespace;
    name = o.name;
    for_provider = o.for_provider;
    init_provider = o.init_provider;
    at_provider = a;
  }

  unfoldable pub get_id : Object S → String
  get_id o = id_or_empty o.at_provider.id

module _ {S : Shapes} (R : Runtime S) where
  abbrev pub decoded : S.Attributes × Option S.Failure → S.Attributes × Option (Error S)
  decoded (m, e) = (m, as_error e)

  -- What a getter returns after Marshal.
  unfoldable pub get_attributes : Marshalled S → S.Attributes × Option (Error S)
  get_attributes (unmarshallable e) = (R.no_map, some (foreign e))
  get_attributes (marshalled j) = decoded (R.unmarshal_attributes j R.empty_map)

  unfoldable pub get_observation : Object S → S.Attributes × Option (Error S)
  get_observation o = get_attributes (R.marshal_observation o.at_provider)

  unfoldable pub get_parameters : Object S → S.Attributes × Option (Error S)
  get_parameters o = get_attributes (R.marshal_parameters o.for_provider)

  unfoldable pub get_init_parameters : Object S → S.Attributes × Option (Error S)
  get_init_parameters o = get_attributes (R.marshal_init_parameters o.init_provider)

  abbrev pub store_observation :
      Object S → AtProvider S × Option S.Failure → Object S × Option (Error S)
  store_observation o (a, e) = (with_at_provider a o, as_error e)

  abbrev pub observe : Object S → Marshalled S → Object S × Option (Error S)
  observe o (unmarshallable e) = (o, some (foreign e))
  observe o (marshalled j) = store_observation o (R.unmarshal_observation j o.at_provider)

  unfoldable pub set_observation : S.Attributes → Object S → Object S × Option (Error S)
  set_observation obs o = observe o (R.marshal_attributes obs)

  abbrev pub store_parameters :
      Object S → S.Parameters × Option S.Failure → Object S × Option (Error S)
  store_parameters o (p, e) = (with_for_provider p o, as_error e)

  abbrev pub parametrize : Object S → Marshalled S → Object S × Option (Error S)
  parametrize o (unmarshallable e) = (o, some (foreign e))
  parametrize o (marshalled j) = store_parameters o (R.unmarshal_parameters j o.for_provider)

  unfoldable pub set_parameters : S.Attributes → Object S → Object S × Option (Error S)
  set_parameters params o = parametrize o (R.marshal_attributes params)

  abbrev pub without_overwrite : MergeConfig S → MergeConfig S
  without_overwrite c = record { overwrite = false; other = c.other }

  -- The options in the order in which mergo applies them.
  unfoldable pub merge_options : List (MergeConfig S → MergeConfig S)
  merge_options = R.with_slice_deep_copy ∷ without_overwrite ∷ []

  abbrev pub merged : Object S → S.Attributes × Option S.Failure → S.Attributes × Option (Error S)
  merged o (m, none) = (m, none)
  merged o (m, some e) = (
    R.no_map,
    some (
        wrap (foreign e) (
          "cannot merge spec.initProvider and spec.forProvider parameters for resource "
          <> quoted_name o)),
  )

  unfoldable pub merge_init :
      Object S → S.Attributes → S.Attributes × Option (Error S) → S.Attributes × Option (Error S)
  merge_init o params (init, some e) =
      (R.no_map, some (wrap e ("cannot get init parameters for resource " <> quoted_name o)))
  merge_init o params (init, none) = merged o (R.merge params init merge_options)

  unfoldable pub merge_parameters :
      Bool → Object S → S.Attributes × Option (Error S) → S.Attributes × Option (Error S)
  merge_parameters should o (params, some e) =
      (R.no_map, some (wrap e ("cannot get parameters for resource " <> quoted_name o)))
  merge_parameters should o (params, none) =
      if not should then (params, none) else merge_init o params (get_init_parameters o)

  unfoldable pub get_merged_parameters : Bool → Object S → S.Attributes × Option (Error S)
  get_merged_parameters should o = merge_parameters should o (get_parameters o)

  abbrev pub initialized :
      Object S → S.Parameters × (Bool × Option S.Failure) → Object S × (Bool × Option (Error S))
  initialized o (p, (changed, e)) = (with_for_provider p o, (changed, as_error e))

  unfoldable pub late_initialize_with :
      Object S → S.Parameters × Option S.Failure → Object S × (Bool × Option (Error S))
  late_initialize_with o (params, some e) = (
    o,
    (
      false,
      some (
          wrap (foreign e)
            "failed to unmarshal Terraform state parameters for late-initialization"),
    ),
  )
  late_initialize_with o (params, none) =
      initialized o
        (R.late_initialize (R.omit_empty_filter R.name_wildcard ∷ []) o.for_provider params)

  unfoldable pub late_initialize : S.Bytes → Object S → Object S × (Bool × Option (Error S))
  late_initialize attrs o = late_initialize_with o (R.unmarshal_parameters attrs R.zero_parameters)

-- The methods of one file.
pub record Methods (S : Shapes) : Type 0 where
  pub get_terraform_resource_type : String
  pub get_connection_details_mapping : Dict String
  pub get_observation : Object S → S.Attributes × Option (Error S)
  pub set_observation : S.Attributes → Object S → Object S × Option (Error S)
  pub get_id : Object S → String
  pub get_parameters : Object S → S.Attributes × Option (Error S)
  pub set_parameters : S.Attributes → Object S → Object S × Option (Error S)
  pub get_init_parameters : Object S → S.Attributes × Option (Error S)
  pub get_merged_parameters : Bool → Object S → S.Attributes × Option (Error S)
  pub late_initialize : S.Bytes → Object S → Object S × (Bool × Option (Error S))
  pub get_terraform_schema_version : ℕ

-- The generated file of a kind: its constants, and methods that are alike but for the kind's types.
abbrev pub Generated : Type 1
Generated = (S : Shapes) → Runtime S → Methods S

abbrev pub methods_of : Constants → Generated
methods_of c S R = record {
  get_terraform_resource_type = c.terraform_resource_type;
  get_connection_details_mapping = c.connection_details_mapping;
  get_observation = get_observation R;
  set_observation = set_observation R;
  get_id = get_id;
  get_parameters = get_parameters R;
  set_parameters = set_parameters R;
  get_init_parameters = get_init_parameters R;
  get_merged_parameters = get_merged_parameters R;
  late_initialize = late_initialize R;
  get_terraform_schema_version = c.terraform_schema_version;
}
