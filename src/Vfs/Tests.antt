-- ===== src/Vfs/Tests.antt =====
-- The file system of src/vfs.rs at concrete paths.
use open_kernel.Base.{◌≡◌, refl, Str_dec, true, false, some, [], ◌∷◌, Str, arith}
use native.Mathlib.Decide.{ℕ_discrete}
use open_kernel.Base.Text.{
  codes, trim_start, trim_end, trim_matches, split, rsplit_once, starts_with, join,
}
use open_kernel.Base.Utf8.{as_bytes, from_utf8, encode_char, decode, decode_char}
use open_kernel.Vfs.Node.{find_child, walk, write_child, mkdir_child, remove_child, entries}
use open_kernel.Vfs.FileSystem
use open_kernel.Vfs.Paths.{
  initial, resolve_path, resolve_segments, resolve_segment, to_path, read_file_string,
  write_file_string, change_directory,
}
use open_kernel.Base.{inl, ◌==◌, str_eq, if◌then◌else◌}
use open_kernel.Vfs.FileSystem.{FileSystem, write_file, mkdir, remove, read_file, list_directory}
use open_kernel.Vfs.Change.{seen, files}
use open_kernel.Vfs.Components.{components}
use open_kernel.Vfs.Spec
use open_kernel.Vfs.Refine.{write_file_refines, mkdir_refines, remove_refines, read_file_refines}
use open_kernel.Vfs.Valid.{IsValid, cd, write, rm, apply_all, commands-IsValid}
use open_kernel.Vfs.Strings.{read_file_string-write_file_string, is_directory, change_directory_lem}
use open_kernel.Vfs.Resolve.{resolved_parts}

-- What the tests compute with.
run : Unit {0}
unfolding FileSystem.new FileSystem.mkdir FileSystem.write_file FileSystem.read_file
    FileSystem.change_parent FileSystem.change_cleaned FileSystem.change_children
    FileSystem.parent_and_name FileSystem.find_node_mut FileSystem.clean_path
    FileSystem.list_directory FileSystem.remove trim_start trim_end trim_matches split rsplit_once
    starts_with join find_child walk write_child mkdir_child remove_child entries as_bytes from_utf8
    encode_char decode decode_char Str_dec ℕ_discrete resolve_path resolve_segments resolve_segment
    to_path write_file_string
run = tt

boot_config :
    FileSystem.read_file FileSystem.new (codes "/bin//init/")
    ≡ some (codes "#!/bin/sh\necho booting open_kernel...\n")
unfolding run
boot_config = refl

boot_listing :
    FileSystem.list_directory FileSystem.new (codes "/")
    ≡ some (
        (codes "config", true)
        ∷ (codes "bin", true)
        ∷ (codes "home", true)
        ∷ (codes "readme.txt", false)
        ∷ [])
unfolding run
boot_listing = refl

resolve_dots : resolve_path (codes "/home/a") (codes "../.././b//c/.") ≡ codes "/b/c"
unfolding run
resolve_dots = refl

abbrev note : Str
note = codes "/home/note"

write_file_refines_example :
    seen (write_file FileSystem.new note (codes "x"))
    ≡ Spec.write_file (files FileSystem.new) (components note) (codes "x")
write_file_refines_example = write_file_refines FileSystem.new note (codes "x")

mkdir_refines_example :
    seen (mkdir FileSystem.new note) ≡ Spec.mkdir (files FileSystem.new) (components note)
mkdir_refines_example = mkdir_refines FileSystem.new note

remove_refines_example :
    seen (remove FileSystem.new (codes "config"))
    ≡ Spec.remove (files FileSystem.new) (components (codes "config"))
remove_refines_example =
    remove_refines FileSystem.new (codes "config") (commands-IsValid []).sound.tree

read_file_refines_example :
    read_file FileSystem.new (codes "bin/init")
    ≡ Spec.read_file (files FileSystem.new) (components (codes "bin/init"))
read_file_refines_example = read_file_refines FileSystem.new (codes "bin/init")

commands-IsValid_example : IsValid (
    apply_all initial
      (cd (codes "home") ∷ write (codes "a") (codes "hi") ∷ rm (codes "../bin") ∷ []))
commands-IsValid_example =
    commands-IsValid (cd (codes "home") ∷ write (codes "a") (codes "hi") ∷ rm (codes "../bin") ∷ [])

note_written : (write_file_string initial note (codes "hi")).1 ≡ true
unfolding run
note_written = refl

read_file_string-write_file_string_example :
    read_file_string (write_file_string initial note (codes "hi")).0 (codes "home/./note") ≡ (
      if resolve_path (codes "/") (codes "home/./note") == resolve_path (codes "/") note
      then some (codes "hi")
      else read_file_string initial (codes "home/./note"))
read_file_string-write_file_string_example =
    read_file_string-write_file_string initial note (codes "hi") (codes "home/./note")
      ((omega arith, inl (omega arith)), ((omega arith, inl (omega arith)), tt)) note_written

change_directory_lem_example : change_directory initial (codes "bin/..//home") ≡ (
    if is_directory (files FileSystem.new (resolved_parts (codes "/") (codes "bin/..//home")))
    then (record initial { current_dir = resolve_path (codes "/") (codes "bin/..//home") }, true)
    else (initial, false))
change_directory_lem_example =
    change_directory_lem initial (codes "bin/..//home") (commands-IsValid []).sound.root
