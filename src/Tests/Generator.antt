-- ===== src/Tests/Generator.antt =====
-- writeGeneratedList over a file system that keeps what was written last.
use mathlib.Core.List.{Permᴰ}
use provider_upjet_unifi.Base.{◌≡◌, ◌<>◌, refl, String, false, none, List, [], ◌∷◌, ◌++◌}
use provider_upjet_unifi.Text.{Text, text}
use provider_upjet_unifi.Cmd.Generator.{
  opened, Roots, sort, marshal, text_leb, insert, escaped, escaped_all, elements,
  write_generated_list,
}
use provider_upjet_unifi.Cmd.Generator.Main.{Tools, list_resources, main, generate, generate_in}
use provider_upjet_unifi.Config.ExternalName.{external_name_configured}
use provider_upjet_unifi.Config.Provider.{get_provider, get_provider_namespaced}
use provider_upjet_unifi.Tests.Assembly.{registry, upjet, identifier, unchanged}
use provider_upjet_unifi.Cmd.Generator.Order.{write_generated_list-order}
use provider_upjet_unifi.Cmd.Generator.Closing.{Handled, write_generated_list-Handled}

abbrev files : Roots
files = record {
  World = Text;
  Failure = String;
  Root = String;
  open_root = λ path w. (opened path, w);
  write_file = λ root name content mode w. (none, content);
  close = λ root w. (none, w);
}

abbrev wan : Text
wan = text "unifi_wan"

abbrev bgp : Text
bgp = text "unifi_bgp"

abbrev resources : List (Text × Unit {0})
resources = (wan, tt) ∷ (bgp, tt) ∷ []

abbrev turned : List (Text × Unit {0})
turned = (bgp, tt) ∷ (wan, tt) ∷ []

written :
    (write_generated_list files "config" resources []).1
    ≡ text "[\"unifi_bgp\",\"unifi_wan\"]" ++ (10 ∷ [])
unfolding write_generated_list sort insert text_leb marshal elements escaped_all escaped
written = refl

write_generated_list-order_example :
    write_generated_list files "config" resources [] ≡ write_generated_list files "config" turned []
write_generated_list-order_example =
    write_generated_list-order files "config" resources turned [] (Permᴰ.swap refl refl)

write_generated_list-Handled_example :
    Handled files "config" (wan ∷ bgp ∷ []) [] (write_generated_list files "config" resources [])
write_generated_list-Handled_example = write_generated_list-Handled files "config" resources []

abbrev tools : Tools files registry.Provider
tools = record {
  Entry = Unit {0};
  abs = λ path. opened path;
  join = λ directory name. directory <> "/" <> name;
  run = λ pc pcn path w. (false, text "generated");
  resources = λ pc w. resources;
}

abbrev args : List String
args = "generator" ∷ "." ∷ []

abbrev list_written : Text
list_written = text "[\"unifi_bgp\",\"unifi_wan\"]" ++ (10 ∷ [])

main_returns : main upjet identifier unchanged [] [] files tools args [] ≡ (none, list_written)
unfolding main generate_in generate list_resources write_generated_list sort insert text_leb marshal
    elements escaped_all escaped get_provider get_provider_namespaced external_name_configured
main_returns = refl
