-- ===== src/Cmd/Generator.antt =====
-- cmd/generator/main.go: writeGeneratedList. The file system is the record `Roots`; sort.Strings and
-- the strings of encoding/json are modelled on texts, lists of code points.
use Prim.Native.Nat.{◌/◌, ◌%◌}
use provider_upjet_unifi.Base.{
  ℕ, ◌+◌, String, Bool, true, false, Option, none, some, List, [], ◌∷◌, ◌++◌, ◌==◌, ◌||◌, leb,
  if◌then◌else◌,
}
use provider_upjet_unifi.Text.{Text, text}
pub mod Order
pub mod Closing
pub mod Main

-- The order of Go strings: that of their UTF-8 bytes, which is that of their code points.
unfoldable pub text_leb : Text → Text → Bool
text_leb [] t = true
text_leb (c ∷ s) [] = false
text_leb (c ∷ s) (d ∷ t) = if c == d then text_leb s t else leb c d

unfoldable pub insert : Text → List Text → List Text
insert x [] = x ∷ []
insert x (y ∷ l) = let rest = insert x l in if text_leb x y then x ∷ y ∷ l else y ∷ rest

-- sort.Strings
unfoldable pub sort : List Text → List Text
sort [] = []
sort (x ∷ l) = insert x (sort l)

abbrev hex_digit : ℕ → ℕ
hex_digit d = if leb d 9 then d + 48 else d + 87

-- \u00xx
abbrev unicode_escape : ℕ → Text
unicode_escape c = text "\\u00" ++ (hex_digit (c / 16) ∷ hex_digit (c % 16) ∷ [])

-- A character of a string that json.Marshal writes.
unfoldable pub escaped : ℕ → Text
escaped c =
    if c == b'"'
    then text "\\\""
    else if c == b'\\'
    then text "\\\\"
    else if c == 8
    then text "\\b"
    else if c == 12
    then text "\\f"
    else if c == 10
    then text "\\n"
    else if c == 13
    then text "\\r"
    else if c == 9
    then text "\\t"
    else if leb c 31 || (c == b'<') || (c == b'>') || (c == b'&')
    then unicode_escape c
    else if c == 0x2028
    then text "\\u2028"
    else if c == 0x2029
    then text "\\u2029"
    else c ∷ []

unfoldable pub escaped_all : Text → Text
escaped_all [] = []
escaped_all (c ∷ s) = escaped c ++ escaped_all s

abbrev quoted : Text → Text
quoted s = text "\"" ++ (escaped_all s ++ text "\"")

unfoldable pub elements : List Text → Text
elements [] = []
elements (x ∷ []) = quoted x
elements (x ∷ y ∷ l) = quoted x ++ (text "," ++ elements (y ∷ l))

-- json.Marshal of a []string, which does not fail.
unfoldable pub marshal : List Text → Text
marshal l = text "[" ++ (elements l ++ text "]")

-- for name := range pc.Resources, in the order of the visit
abbrev pub names : {V : Type 0} → List (Text × V) → List Text
names [] = []
names ((name, v) ∷ rest) = name ∷ names rest

pub data Opened (F R : Type 0) : Type 0 where
  refused : F → Opened F R
  opened : R → Opened F R

-- os.OpenRoot, and the methods WriteFile and Close of what it returns.
pub record Roots : Type 1 where
  pub World : Type 0
  pub Failure : Type 0
  pub Root : Type 0
  pub open_root : String → World → Opened Failure Root × World
  pub write_file : Root → String → Text → ℕ → World → Option Failure × World
  pub close : Root → World → Option Failure × World

pub data WriteError (F : Type 0) : Type 0 where
  no_resources : WriteError F
  from_files : F → WriteError F

abbrev pub as_error : {F : Type 0} → Option F → Option (WriteError F)
as_error none = none
as_error (some e) = some (from_files e)

module _ (files : Roots) where
  open files use {World, Failure, Root, open_root, write_file, close}

  -- After WriteFile: its error, with the error of Close dropped, or what Close returns.
  abbrev pub close_after : Root → Option Failure × World → Option (WriteError Failure) × World
  close_after root (some e, w) = (some (from_files e), (close root w).1)
  close_after root (none, w) = (as_error (close root w).0, (close root w).1)

  abbrev pub write_into : Text → Opened Failure Root × World → Option (WriteError Failure) × World
  write_into content (refused e, w) = (some (from_files e), w)
  write_into content (opened root, w) =
      close_after root (write_file root "generated.lst" (content ++ (10 ∷ [])) 384 w)

  abbrev pub write_names : String → List Text → World → Option (WriteError Failure) × World
  write_names config_dir [] w = (some no_resources, w)
  write_names config_dir (x ∷ l) w = write_into (marshal (sort (x ∷ l))) (open_root config_dir w)

  unfoldable pub write_generated_list :
      {V : Type 0} → String → List (Text × V) → World → Option (WriteError Failure) × World
  write_generated_list config_dir resources w = write_names config_dir (names resources) w
