-- ===== src/Vfs/Node.antt =====
-- src/vfs.rs: `VfsNode`, and the loops over the children of a directory.
use open_kernel.Base.{
  ℕ, Bool, true, false, Option, none, some, List, [], ◌∷◌, Str, ◌==◌, str_eq, if◌then◌else◌,
}
use mathlib.Core.Option

-- `VfsNode`. `Nodes` is the `Vec<VfsNode>` of a directory.
mutual
  pub data Node : Type 0 where
    file : Str → List ℕ → Node
    directory : Str → Nodes → Node

  pub data Nodes : Type 0 where
    nil : Nodes
    cons : Node → Nodes → Nodes

abbrev pub name : Node → Str
name (file n content) = n
name (directory n children) = n

abbrev pub is_dir : Node → Bool
is_dir (file n content) = false
is_dir (directory n children) = true

-- A mutable reference to a node: its value, and the tree around it once the node is replaced.
pub record NodeRef : Type 0 where
  pub target : Node
  pub write_back : Node → Node

pub record ChildRef : Type 0 where
  pub child : Node
  pub replace : Node → Nodes

-- The search for `found_idx`, and `&mut children[idx]`: the first child of that name.
unfoldable pub find_child : Str → Nodes → Option ChildRef
find_child part nil = none
find_child part (cons c cs) =
    let rest = find_child part cs in
    if name c == part then some (record { child = c; replace = λ n. cons n cs }) else elim rest [
      | none ↦ none
      | some r ↦ some (record { child = r.child; replace = λ n. cons c (r.replace n) })
    ]

-- The loop of `find_node_mut` over the parts of the path.
unfoldable pub walk : Node → List Str → Option NodeRef
walk curr [] = some (record { target = curr; write_back = λ n. n })
walk (file n content) (part ∷ parts) = none
walk (directory n children) (part ∷ parts) = elim (find_child part children) [
  | none ↦ none
  | some r ↦ elim (walk r.child parts) [
    | none ↦ none
    | some s ↦
        some
          (record { target = s.target; write_back = λ m. directory n (r.replace (s.write_back m)) })
  ]
]

-- The loop of `write_file`: overwrite the first child of that name if it is a file, fail if it is
-- a directory, and push a new file if there is none.
unfoldable pub write_child : Str → List ℕ → Nodes → Option Nodes
write_child file_name content nil = some (cons (file file_name content) nil)
write_child file_name content (cons (file n old) cs) =
    let rest = write_child file_name content cs in
    if n == file_name then some (cons (file n content) cs) else Option.map (cons (file n old)) rest
write_child file_name content (cons (directory n children) cs) =
    let rest = write_child file_name content cs in
    if n == file_name then none else Option.map (cons (directory n children)) rest

-- The loop of `mkdir`: fail if a child has the name, and push a new directory if none does.
unfoldable pub mkdir_child : Str → Nodes → Option Nodes
mkdir_child dir_name nil = some (cons (directory dir_name nil) nil)
mkdir_child dir_name (cons c cs) =
    let rest = mkdir_child dir_name cs in
    if name c == dir_name then none else Option.map (cons c) rest

-- `children.iter().position(…)` and `children.remove(idx)`.
unfoldable pub remove_child : Str → Nodes → Option Nodes
remove_child target_name nil = none
remove_child target_name (cons c cs) =
    let rest = remove_child target_name cs in
    if name c == target_name then some cs else Option.map (cons c) rest

-- The loop of `list_directory`.
unfoldable pub entries : Nodes → List (Str × Bool)
entries nil = []
entries (cons c cs) = (name c, is_dir c) ∷ entries cs
