-- ===== src/Tests/Resolvers.antt =====
-- ResolveReferences of a firewall policy and of a device, with a resolver that knows one network.
use text.Mathlib.Text.{◌==◌}
use provider_upjet_unifi.Base.{
  ℕ, suc, ◌≡◌, ◌⊎◌, refl, String, Option, none, some, [], ◌∷◌, if◌then◌else◌,
}
use provider_upjet_unifi.Base.Dict
use provider_upjet_unifi.Base.Dict.{Dict, member}
use provider_upjet_unifi.Config.Resource.{Reference, to}
use provider_upjet_unifi.Config.Unifi.{get_or_nil}
use provider_upjet_unifi.Config.Unifi.Tables.{references, res_firewall_group, res_network}
use provider_upjet_unifi.Controller.Coverage.{kinds}
use provider_upjet_unifi.Apis.{
  Types, single, plain, slice, Struct, end, field, nil, item, Answer, failed, answered, Response,
  Resolver, Wrapped, Spec, resolve_references, run_steps, run_step, on_field, in_slice, on_items,
  resolve_node, resolve_multiple_node,
}
use provider_upjet_unifi.Apis.Steps.{device_device, account_account, resolvers}
use provider_upjet_unifi.Apis.Frame.{untouched}
use provider_upjet_unifi.Apis.Apart.{at, resolve_references-at}
use provider_upjet_unifi.Apis.Failure.{IsFailing, resolve_references-IsFailing}
use provider_upjet_unifi.Apis.Success.{IsAnswering, StepsOf, resolve_references-StepsOf}
use provider_upjet_unifi.Apis.Agree.{
  resolved, resolved_by, resolves-declared, declares-resolved, terraform_name,
}

abbrev types : Types
types = record {
  World = ℕ;
  Failure = String;
  Reference = String;
  Selector = String;
  Plain = String;
}

abbrev looked_up : Option String → Answer String (Response types)
looked_up none = answered (record { resolved_value = ""; resolved_reference = none })
looked_up (some name) =
    if name == "lan"
    then answered (record { resolved_value = "6f1c"; resolved_reference = some "lan" })
    else failed "not found"

abbrev value_of : Option String → String
value_of none = ""
value_of (some v) = v

abbrev pointer_to : String → Option String
pointer_to v = if v == "" then none else some v

abbrev resolver : Resolver types
resolver = record {
  resolve = λ q w. (looked_up q.reference, suc w);
  resolve_multiple = λ q w. (
    answered (record { resolved_values = q.current_values; resolved_references = q.references }),
    suc w,
  );
  from_ptr_value = value_of;
  to_ptr_value = pointer_to;
  from_ptr_values = λ vs. [];
  to_ptr_values = λ vs. [];
}

abbrev network : Option String → Struct types
network ref =
    field "NetworkID" (single (record { value = none; reference = ref; selector = none })) end

abbrev account : Option String → Spec types
account ref = record { for_provider = network ref; init_provider = network none }

abbrev resolved_network : Struct types
resolved_network =
    field "NetworkID"
      (single (record { value = some "6f1c"; reference = some "lan"; selector = none })) end

account_resolved :
    (resolve_references resolver "team-a" account_account (account (some "lan")) 0).after
    ≡ record { for_provider = resolved_network; init_provider = network none }
unfolding resolve_references run_steps run_step on_field resolve_node
account_resolved = refl

not_found : Wrapped types
not_found = record { cause = "not found"; message = "mg.Spec.ForProvider.NetworkID" }

account_failed :
    (resolve_references resolver "team-a" account_account (account (some "wan")) 0).failure
    ≡ some not_found
unfolding resolve_references run_steps run_step on_field resolve_node not_found
account_failed = refl

-- A device with two overrides, of which the second refers to a network that is not there.
abbrev override : Option String → Struct types
override ref =
    field "NativeNetworkconfID" (single (record { value = none; reference = ref; selector = none }))
      end

abbrev device : Spec types
device = record {
  for_provider =
      field "PortOverride" (slice (item (override (some "lan")) (item (override (some "wan")) nil)))
        end;
  init_provider = end;
}

device_failed :
    (resolve_references resolver "team-a" device_device device 0).failure
    ≡ some (record {
      cause = "not found";
      message = "mg.Spec.ForProvider.PortOverride[i3].NativeNetworkconfID";
    })
unfolding resolve_references run_steps run_step on_field resolve_node in_slice on_items
    resolve_multiple_node
device_failed = refl

-- The device with a plain field, and with a network that no block of its method names.
abbrev tagged : Spec types
tagged = record {
  for_provider = field "Tag" (plain "roof") (
      field "NetworkID"
        (single (record { value = some "6f1c"; reference = none; selector = some "any" }))
        device.for_provider);
  init_provider = end;
}

resolve_references-at_example :
    (at
        (("NetworkID", 0) ∷ [])
        (resolve_references resolver "team-a" device_device tagged 0).after.for_provider
      ≡ at (("NetworkID", 0) ∷ []) tagged.for_provider)
    × (at
          (("NetworkID", 0) ∷ [])
          (resolve_references resolver "team-a" device_device tagged 0).after.init_provider
        ≡ at (("NetworkID", 0) ∷ []) tagged.init_provider)
    × (untouched (resolve_references resolver "team-a" device_device tagged 0).after
        ≡ untouched tagged)
resolve_references-at_example =
    resolve_references-at resolver "team-a" device_device tagged 0 (("NetworkID", 0) ∷ []) refl

resolve_references-IsFailing_example :
    IsFailing resolver "team-a" account_account "mg.Spec.ForProvider"
      (network (some "wan"))
      0
      not_found
    ⊎ (((run_steps resolver "team-a" account_account "mg.Spec.ForProvider"
            (network (some "wan"))
            0).failure
          ≡ none)
        × IsFailing resolver "team-a" account_account "mg.Spec.InitProvider"
            (network none)
            (run_steps resolver "team-a" account_account "mg.Spec.ForProvider"
              (network (some "wan"))
              0).world
            not_found)
resolve_references-IsFailing_example =
    resolve_references-IsFailing resolver "team-a" account_account (account (some "wan")) 0
      not_found account_failed

-- A resolver that takes every name for the network's identifier.
abbrev lenient : Resolver types
lenient = record {
  resolve = λ q w. (
    answered (record { resolved_value = value_of q.reference; resolved_reference = q.reference }),
    suc w,
  );
  resolve_multiple = resolver.resolve_multiple;
  from_ptr_value = value_of;
  to_ptr_value = pointer_to;
  from_ptr_values = λ vs. [];
  to_ptr_values = λ vs. [];
}

lenient-IsAnswering : IsAnswering lenient
lenient-IsAnswering = record {
  resolve = λ q w.
      (record { resolved_value = value_of q.reference; resolved_reference = q.reference }, refl);
  resolve_multiple = λ q w.
      (record { resolved_values = q.current_values; resolved_references = q.references }, refl);
}

resolve_references-StepsOf_example :
    (v : ℕ) × ((resolve_references lenient "team-a" device_device device 0).failure ≡ none)
    × StepsOf lenient "team-a" device_device device.for_provider 0
        (resolve_references lenient "team-a" device_device device 0).after.for_provider
        v
    × StepsOf lenient "team-a" device_device device.init_provider v
        (resolve_references lenient "team-a" device_device device 0).after.init_provider
        (resolve_references lenient "team-a" device_device device 0).world
resolve_references-StepsOf_example =
    resolve_references-StepsOf lenient lenient-IsAnswering "team-a" device_device device 0

abbrev limited : Dict Reference
limited = ("source_limiting.firewall_group_id", to res_firewall_group) ∷ []

resolves-declared_example :
    Dict.get "source_limiting.firewall_group_id" (resolved_by "unifi_port_forward")
    ≡ some res_firewall_group
unfolding references Dict.get
resolves-declared_example =
    resolves-declared "unifi_port_forward" "source_limiting.firewall_group_id" limited
      (to res_firewall_group) refl refl

declares-resolved_example :
    Dict.get "network_id" (get_or_nil (Dict.get "unifi_account" references)) ≡ some (to res_network)
unfolding resolvers Dict.get resolved terraform_name kinds
declares-resolved_example =
    declares-resolved "unifi_account" "network_id" res_network account_account refl refl
