-- ===== src/Vfs/FileSystem.antt =====
-- src/vfs.rs: `FileSystem` and its operations on paths.
use open_kernel.Base.{
  ℕ, Bool, true, false, Option, none, some, List, [], Str, ◌==◌, nat_eq, if◌then◌else◌,
}
use open_kernel.Base.Text.{codes, is_empty, trim_matches, split, rsplit_once, filter_nonempty}
use open_kernel.Vfs.Node.{
  Node, Nodes, file, directory, nil, NodeRef, walk, write_child, mkdir_child, remove_child, entries,
}

pub record FileSystem : Type 0 where
  pub root : Node

abbrev pub is_slash : ℕ → Bool
is_slash c = c == b'/'

-- `path.trim_matches('/')`
unfoldable pub clean_path : Str → Str
clean_path path = trim_matches is_slash path

unfoldable pub find_node_mut : FileSystem → Str → Option NodeRef
find_node_mut fs path =
    let clean = clean_path path in
    if is_empty clean
    then some (record { target = fs.root; write_back = λ n. n })
    else walk fs.root (filter_nonempty (split b'/' clean))

-- `clean_path` cut at its last separator.
unfoldable pub parent_and_name : Str → Str × Str
parent_and_name clean = elim (rsplit_once b'/' clean) [ some (b, a) ↦ (b, a) | none ↦ ([], clean) ]

-- The body of the three writing operations: change the children of the parent directory.
unfoldable pub change_children :
    (Nodes → Option Nodes) → FileSystem → NodeRef → Node → FileSystem × Bool
change_children change fs parent (file n content) = (fs, false)
change_children change fs parent (directory n children) = elim (change children) [
  | none ↦ (fs, false)
  | some children' ↦ (record { root = parent.write_back (directory n children') }, true)
]

unfoldable pub change_cleaned : (Str → Nodes → Option Nodes) → FileSystem → Str → FileSystem × Bool
change_cleaned change fs clean =
    let (parent_path, last) = parent_and_name clean in
    if is_empty clean then (fs, false) else elim (find_node_mut fs parent_path) [
      | none ↦ (fs, false)
      | some parent ↦ change_children (change last) fs parent parent.target
    ]

unfoldable pub change_parent : (Str → Nodes → Option Nodes) → FileSystem → Str → FileSystem × Bool
change_parent change fs path = change_cleaned change fs (clean_path path)

unfoldable pub write_file : FileSystem → Str → List ℕ → FileSystem × Bool
write_file fs path content = change_parent (λ file_name. write_child file_name content) fs path

unfoldable pub mkdir : FileSystem → Str → FileSystem × Bool
mkdir fs path = change_parent mkdir_child fs path

unfoldable pub remove : FileSystem → Str → FileSystem × Bool
remove fs path = change_parent remove_child fs path

unfoldable pub list_directory : FileSystem → Str → Option (List (Str × Bool))
list_directory fs path = elim (find_node_mut fs path) [
  | none ↦ none
  | some r ↦ elim r.target [
    | directory n children ↦ some (entries children)
    | file n content ↦ none
  ]
]

unfoldable pub read_file : FileSystem → Str → Option (List ℕ)
read_file fs path = elim (find_node_mut fs path) [
  | none ↦ none
  | some r ↦ elim r.target [ file n content ↦ some content | directory n children ↦ none ]
]

-- `FileSystem::new`, with `init_default_structure`.
unfoldable pub new : FileSystem
new =
    let fs : FileSystem = record { root = directory (codes "/") nil } in
    let fs = (mkdir fs (codes "config")).0 in
    let fs = (mkdir fs (codes "bin")).0 in
    let fs = (mkdir fs (codes "home")).0 in
    let fs =
      (write_file fs (codes "config/system.conf")
        (codes "[system]\nos_name = open_kernel\nversion = 0.1.0\narch = x86_64\n")).0 in
    let fs =
      (write_file fs (codes "readme.txt") (codes "Welcome to open_kernel OS in-memory VFS!\n")).0 in
    (write_file fs (codes "bin/init") (codes "#!/bin/sh\necho booting open_kernel...\n")).0
