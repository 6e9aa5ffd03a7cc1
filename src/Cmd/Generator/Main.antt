-- ===== src/Cmd/Generator/Main.antt =====
-- cmd/generator/main.go: main. filepath, upjet's pipeline and the map of a provider's resources are
-- the record `Tools`.
use package.text.Mathlib.Text.{◌==◌}
use provider_upjet_unifi.Base.{
  String, false, Option, none, some, List, [], ◌∷◌, if◌then◌else◌, Bool, true,
}
use provider_upjet_unifi.Base.Dict.{Dict}
use provider_upjet_unifi.Text.{Text}
use provider_upjet_unifi.Config.Provider.{Upjet, get_provider, get_provider_namespaced}
use provider_upjet_unifi.Cmd.Generator.{
  Opened, refused, opened, Roots, WriteError, write_generated_list,
}

pub record Tools (files : Roots) (Provider : Type 0) : Type 1 where
  pub Entry : Type 0
  pub abs : String → Opened files.Failure String
  pub join : String → String → String
  -- pipeline.Run, and whether it panics
  pub run : Provider → Provider → String → files.World → Bool × files.World
  -- pc.Resources as they are after the pipeline, in the order of the visit
  pub resources : Provider → files.World → List (Text × Entry)

-- What main panics with; `no_provider` is the panic of a function of config.
pub data Panic (F : Type 0) : Type 0 where
  root_required : Panic F
  no_absolute_path : String → Panic F
  no_provider : Panic F
  pipeline_panicked : Panic F
  not_written : WriteError F → Panic F

module _ {E : Type 0} (U : Upjet E) (identifier_from_provider : E) (lower_camel : Text → Text)
    (configs : Dict E) (groups : Dict String) (files : Roots)
    (tools : Tools files U.registry.Provider) where
  open files use {World, Failure}

  abbrev pub Run : Type 0
  Run = Option (Panic Failure) × World

  abbrev pub finish : Option (WriteError Failure) × World → Run
  finish (none, w) = (none, w)
  finish (some e, w) = (some (not_written e), w)

  unfoldable pub list_resources : String → U.registry.Provider → Bool × World → Run
  list_resources abs_root_dir pc (true, w) = (some pipeline_panicked, w)
  list_resources abs_root_dir pc (false, w) =
      finish
        (write_generated_list files (tools.join abs_root_dir "config") (tools.resources pc w) w)

  unfoldable pub generate :
      String → Option U.registry.Provider → Option U.registry.Provider → World → Run
  generate abs_root_dir (some pc) (some pcn) w =
      list_resources abs_root_dir pc (tools.run pc pcn abs_root_dir w)
  generate abs_root_dir pc pcn w = (some no_provider, w)

  unfoldable pub generate_in : String → Opened Failure String → World → Run
  generate_in root_dir (refused e) w = (some (no_absolute_path root_dir), w)
  generate_in root_dir (opened abs_root_dir) w =
      generate abs_root_dir (get_provider U identifier_from_provider lower_camel configs groups)
        (get_provider_namespaced U identifier_from_provider lower_camel configs groups) w

  -- main, with os.Args; the second of them is the root directory.
  unfoldable pub main : List String → World → Run
  main [] w = (some root_required, w)
  main (program ∷ []) w = (some root_required, w)
  main (program ∷ root_dir ∷ rest) w =
      if root_dir == ""
      then (some root_required, w)
      else generate_in root_dir (tools.abs root_dir) w
