-- ===== src/Lib.antt =====
-- A verification library of the UniFi provider for Crossplane.
--
-- The provider is generated by upjet from a Terraform provider's schema, the tables under config/
-- and a few hand-written functions. At run time cmd/provider/main.go starts a controller manager
-- and sets up one controller for each kind of resource and scope (internal/controller); each
-- reconciliation calls the setup function of internal/clients/unifi.go, which turns the resource's
-- ProviderConfig and its credentials into the configuration of the Terraform provider. Before
-- that, the generated ResolveReferences methods (apis) replace references to other resources by
-- their names.
--
-- Files and code:
--   Base, Base/Dict         names of the library; Go maps as association lists
--   Text and below          Go's package strings as far as config/write_only.go calls it
--   Config/WriteOnly        config/write_only.go: describe_write_only is describeWriteOnly, visit a
--                           round of its loop, rewrite_by what a round writes
--   Config/ExternalName     config/external_name.go
--   Config/Unifi, Tables    config/unifi/config.go: short_groups, kind_overrides, references, and
--                           configure_over, the loop of Configure
--   Config/Provider         config/provider.go
--   Clients                 internal/clients/unifi.go: terraform_setup_builder, resolve_legacy,
--                           resolve_modern, forward; the types of apis/*/v1beta1/types.go
--   Controller, Kinds       internal/controller/*/zz_setup.go, the zz_controller.go of each kind,
--                           and internal/controller/*/providerconfig/config.go
--   Apis and below          apis/*/*/v1alpha1/zz_generated.resolvers.go: Steps holds the methods as
--                           lists of their blocks, resolve_references runs one; Scheme has the
--                           registration of apis/*/zz_register.go
--   Copies and below        apis/*/*/zz_generated.deepcopy.go with the structs of zz_*_types.go and
--                           types.go: deep_copy is DeepCopy, run_blocks the body of a DeepCopyInto
--                           method; a folder per API group has the tables of structs and methods
--   Terraformed and below   apis/*/*/v1alpha1/zz_*_terraformed.go: the methods as one template,
--                           Tables with the constants of each kind, Kinds with the files one by one
--   Accessors and below     apis/*/*/v1alpha1/zz_generated.managed.go and managedlist.go, and
--                           the pc, pcu and pculist files of apis/*/v1beta1
--   Cmd/Provider            cmd/provider/main.go, from the parsed flags on
--   Cmd/Generator           cmd/generator/main.go: write_generated_list is writeGeneratedList,
--                           Main has main
--   Tests and below         runs of the definitions, and the theorems at concrete data
--
-- A Go map is an association list whose order is the order of the visit, so a theorem for every
-- list is a theorem for every order. A text of write_only.go is the list of its code points. A
-- call that leaves the repository is a field of a record that the definitions take: Api for the
-- API server, the usage trackers, the credential extractor and encoding/json; Manager for
-- controller-runtime and the gate; Platform for what main calls; Registry and Upjet for upjet's
-- provider; Tools for upjet's pipeline; Runtime for json.TFParser, mergo and upjet's late
-- initializer; Library for the deep copies of types of other modules; Resolver for the reference
-- resolver of crossplane-runtime; Roots for the directory that the generator writes to. State is
-- passed explicitly through those calls as a World. A nil dereference is an outcome of its own,
-- panicked or crashed; Options has whether Logger, Provider, Gate, MetricOptions and
-- ChangeLogOptions are nil. NewProvider and pipeline.Run may panic. All loops are structural
-- recursion, so nothing runs on fuel.
--
-- The generated controllers are one template: setup_managed has the kind as its parameter, Kinds
-- lists the kinds in the order of zz_setup.go, and Packages has the packages one by one. The
-- cluster and the namespaced scope are the two values of Scope. Likewise a ResolveReferences
-- method is a list of blocks over the tree of a resource's fields: Single and Many are the fields
-- with their Ref and Selector beside them, plain is any other field, and a node of a form that the
-- Go type rules out is left alone. The methods of the two scopes have the same blocks (Apis/Methods).
--
-- A deep copy runs on a heap: the next free address, and what each cell holds. A method is the
-- list of its blocks, in order, with their fields; a struct the list of its fields with their
-- types. What a value stands for (Copies/Reading) is read from the cells between two bounds.
-- SecretKeySelector, TypeMeta, CredentialsSource and TypedProviderConfigUsage are taken to hold no
-- pointers, as the generated code assigns them.
--
-- The deep copies of the namespaced scope are those of the cluster scope with the types of
-- Crossplane for namespaced resources (Copies/Namespaced).
--
-- Not modelled: the deep copies of the kind Device, of network and of setting, which have the same
-- form; when the gate calls back; flag parsing, logging and the construction of metrics in
-- main; scripts, manifests and examples.
pub mod Base
pub mod Text
pub mod Config
pub mod Clients
pub mod Controller
pub mod Cmd
pub mod Apis
pub mod Accessors
pub mod Copies
pub mod Terraformed
pub mod Tests
