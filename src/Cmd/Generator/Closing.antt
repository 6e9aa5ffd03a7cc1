-- ===== src/Cmd/Generator/Closing.antt =====
-- The directory that writeGeneratedList opens is closed again.
use provider_upjet_unifi.Base.{
  ◌≡◌, refl, String, Option, none, some, List, [], ◌∷◌, ◌++◌, ◌⊎◌, inl, inr,
}
use provider_upjet_unifi.Text.{Text}
use provider_upjet_unifi.Cmd.Generator.{
  Opened, refused, opened, Roots, WriteError, no_resources, from_files, close_after, write_into,
  marshal, sort, names, write_generated_list,
}

module _ (files : Roots) where
  open files use {World, Failure, Root, open_root, write_file, close}

  -- The directory was opened, the list was written, and closing the directory was the last call. The
  -- result is the error of the write, if it has one, and otherwise that of Close.
  pub record Closed (config_dir : String) (content : Text) (w : World)
      (r : Option (WriteError Failure) × World) : Type 0 where
    pub root : Root
    pub was_opened : World
    pub was_written : Option Failure × World
    pub opening : open_root config_dir w ≡ (opened root, was_opened)
    pub writing : write_file root "generated.lst" content 384 was_opened ≡ was_written
    pub closing : r ≡ close_after files root was_written
    pub left : r.1 ≡ (close root was_written.1).1

  left-close_after :
      (root : Root) (x : Option Failure × World) → (close_after files root x).1 ≡ (close root x.1).1
  left-close_after root (none, w) = refl
  left-close_after root (some e, w) = refl

  -- What a run of writeGeneratedList did: nothing, or it could not open the directory, or it opened it
  -- and closed it last.
  abbrev pub Handled : String → List Text → World → Option (WriteError Failure) × World → Type 0
  Handled config_dir [] w r = r ≡ (some no_resources, w)
  Handled config_dir (x ∷ l) w r =
      ((e : Failure) × (open_root config_dir w ≡ (refused e, r.1)) × (r.0 ≡ some (from_files e)))
      ⊎ Closed config_dir (marshal (sort (x ∷ l)) ++ (10 ∷ [])) w r

  write_into-Handled :
      (config_dir : String) (x : Text) (l : List Text) (w : World) (o : Opened Failure Root × World)
      → open_root config_dir w ≡ o
      → Handled config_dir (x ∷ l) w (write_into files (marshal (sort (x ∷ l))) o)
  write_into-Handled config_dir x l w (refused e, v) h = inl (e, h, refl)
  write_into-Handled config_dir x l w (opened root, v) h = inr (record {
    root = root;
    was_opened = v;
    was_written = write_file root "generated.lst" (marshal (sort (x ∷ l)) ++ (10 ∷ [])) 384 v;
    opening = h;
    writing = refl;
    closing = refl;
    left = left-close_after root _;
  })

  -- Without resources writeGeneratedList fails and touches no file. Otherwise it fails because the
  -- directory cannot be opened, or it writes the sorted names and closes the directory whether or not
  -- the write failed.
  pub write_generated_list-Handled :
      {V : Type 0} (config_dir : String) (resources : List (Text × V)) (w : World)
      → Handled config_dir (names resources) w (write_generated_list files config_dir resources w)
  unfolding write_generated_list
  write_generated_list-Handled config_dir [] w = refl
  write_generated_list-Handled config_dir ((x, v) ∷ rest) w =
      write_into-Handled config_dir x (names rest) w (open_root config_dir w) refl
