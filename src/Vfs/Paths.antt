-- ===== src/Vfs/Paths.antt =====
-- src/vfs.rs: `FS` and `CURRENT_DIR`, `resolve_path`, and the operations of the kernel on paths
-- relative to the current directory. Text that is printed is returned as the lines printed.
use open_kernel.Base.{
  ◌||◌, Bool, true, false, Option, none, some, List, [], ◌∷◌, ◌++◌, Str, ◌==◌, str_eq, map, pop,
  if◌then◌else◌,
}
use open_kernel.Base.Text.{codes, is_empty, starts_with, split, join}
use open_kernel.Base.Utf8.{as_bytes, from_utf8}
use open_kernel.Vfs.Node.{directory, file}
use open_kernel.Vfs.FileSystem
use open_kernel.Vfs.FileSystem.{FileSystem, find_node_mut}

-- The two globals.
pub record Vfs : Type 0 where
  pub fs : FileSystem
  pub current_dir : Str

abbrev pub initial : Vfs
initial = record { fs = FileSystem.new; current_dir = codes "/" }

-- One round of the loop of `resolve_path` over the segments, and the loop.
unfoldable pub resolve_segment : List Str → Str → List Str
resolve_segment parts segment =
    if is_empty segment || segment == codes "."
    then parts
    else if segment == codes ".."
    then pop parts
    else parts ++ segment ∷ []

unfoldable pub resolve_segments : List Str → List Str → List Str
resolve_segments parts [] = parts
resolve_segments parts (segment ∷ rest) = resolve_segments (resolve_segment parts segment) rest

-- The path with these parts.
unfoldable pub to_path : List Str → Str
to_path [] = codes "/"
to_path (p ∷ ps) = codes "/" ++ join b'/' (p ∷ ps)

unfoldable pub resolve_path : Str → Str → Str
resolve_path current_dir input =
    let base = if starts_with b'/' input then codes "/" else current_dir in
    to_path (resolve_segments [] (split b'/' base ++ split b'/' input))

unfoldable pub change_directory : Vfs → Str → Vfs × Bool
change_directory v path =
    let resolved = resolve_path v.current_dir path in
    if resolved == codes "/"
    then (record v { current_dir = codes "/" }, true)
    else elim (find_node_mut v.fs resolved) [
      | none ↦ (v, false)
      | some r ↦ elim r.target [
        | directory n children ↦ (record v { current_dir = resolved }, true)
        | file n content ↦ (v, false)
      ]
    ]

abbrev suffixed : Str × Bool → Str
suffixed (name, is_dir) = name ++ (if is_dir then codes "/" else [])

-- The lines that `list_directory` prints.
unfoldable pub list_directory : Vfs → Str → List Str
list_directory v path =
    let target = if is_empty path then v.current_dir else resolve_path v.current_dir path in
    elim (FileSystem.list_directory v.fs target) [
      | some [] ↦ (codes "Directory listing [" ++ target ++ codes "]:") ∷ codes "  (empty)" ∷ []
      | some (e ∷ entries) ↦
          (codes "Directory listing [" ++ target ++ codes "]:")
          ∷ map (λ f. codes "  " ++ suffixed f) (e ∷ entries)
      | none ↦ (codes "ls: directory not found: " ++ target) ∷ []
    ]

-- The lines that `print_tree` prints.
unfoldable pub print_tree : Vfs → List Str
print_tree v = elim (FileSystem.list_directory v.fs []) [
  | some entries ↦ codes "." ∷ map (λ f. codes "|-- " ++ suffixed f) entries
  | none ↦ codes "." ∷ []
]

unfoldable pub read_file_string : Vfs → Str → Option Str
read_file_string v path = elim (FileSystem.read_file v.fs (resolve_path v.current_dir path)) [
  | none ↦ none
  | some bytes ↦ from_utf8 bytes
]

abbrev pub with_fs : Vfs → FileSystem × Bool → Vfs × Bool
with_fs v (fs, done) = (record v { fs = fs }, done)

unfoldable pub write_file_string : Vfs → Str → Str → Vfs × Bool
write_file_string v path content =
    with_fs v (FileSystem.write_file v.fs (resolve_path v.current_dir path) (as_bytes content))

unfoldable pub create_dir : Vfs → Str → Vfs × Bool
create_dir v path = with_fs v (FileSystem.mkdir v.fs (resolve_path v.current_dir path))

unfoldable pub remove_node : Vfs → Str → Vfs × Bool
remove_node v path = with_fs v (FileSystem.remove v.fs (resolve_path v.current_dir path))
