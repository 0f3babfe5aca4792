-- ===== src/Vfs/Preserve.antt =====
-- The operations of src/vfs.rs and the invariant of the tree.
use open_kernel.Base.{ℕ, ◌≡◌, refl, Option, some, List, Str, str_eq, Option-cases, inl, inr}
use open_kernel.Vfs.Node.{
  Node, Nodes, file, directory, NodeRef, name, walk, write_child, mkdir_child, remove_child,
}
use open_kernel.Vfs.FileSystem.{
  FileSystem, change_children, change_parent, write_file, mkdir, remove,
}
use open_kernel.Vfs.Components.{IsName, at_parent, Target, target, root_path, below}
use open_kernel.Vfs.WellFormed.{
  IsWellFormed, Keeps, walk-IsWellFormed, write_child-Keeps, mkdir_child-Keeps, remove_child-Keeps,
}

change_children-IsWellFormed :
    (op : Nodes → Option Nodes)
    → Keeps op
    → (fs : FileSystem) (ps : List Str) (r : NodeRef) → IsWellFormed fs.root
    → walk fs.root ps ≡ some r
    → IsWellFormed (change_children op fs r r.target).0.root
unfolding change_children
change_children-IsWellFormed op keeps fs ps r w h =
    let (wt, back) = walk-IsWellFormed fs.root ps w h in go r.target refl wt back
  where
    go :
        (m : Node)
        → r.target ≡ m
        → IsWellFormed m
        → ((k : Node)
            → name k ≡ name m
            → IsWellFormed k
            → IsWellFormed (r.write_back k) × (name (r.write_back k) ≡ name fs.root))
        → IsWellFormed (change_children op fs r m).0.root
    go (file n content) e wm back = w
    go (directory n children) e wm back = elim (Option-cases (op children)) [
      | inl t ↦ rw (t, change_children) w
      | inr (cs, t) ↦
          rw (t, change_children) (back (directory n cs) refl (keeps children cs wm t)).0
    ]

change_parent-IsWellFormed :
    (op : Str → Nodes → Option Nodes)
    → ((n : Str) → IsName n → Keeps (op n))
    → (fs : FileSystem) (path : Str) → IsWellFormed fs.root
    → IsWellFormed (change_parent op fs path).0.root
unfolding at_parent
change_parent-IsWellFormed op keeps fs path w = go (target op fs path)
  where
    go : Target op fs path → IsWellFormed (change_parent op fs path).0.root
    go (root_path c eq) = rw eq w
    go (below ps n c v eq) = rw eq (elim (Option-cases (walk fs.root ps)) [
      | inl h ↦ rw (h, at_parent) w
      | inr (r, h) ↦ rw (h, at_parent) (change_children-IsWellFormed (op n) (keeps n v) fs ps r w h)
    ])

-- `write_file` keeps the tree well formed, whether it succeeds or fails.
pub write_file-IsWellFormed :
    (fs : FileSystem) (path : Str) (content : List ℕ)
    → IsWellFormed fs.root
    → IsWellFormed (write_file fs path content).0.root
unfolding write_file
write_file-IsWellFormed fs path content w =
    change_parent-IsWellFormed (λ n. write_child n content) (λ n v. write_child-Keeps n content v)
      fs path w

-- `mkdir` keeps the tree well formed, whether it succeeds or fails.
pub mkdir-IsWellFormed :
    (fs : FileSystem) (path : Str) → IsWellFormed fs.root → IsWellFormed (mkdir fs path).0.root
unfolding mkdir
mkdir-IsWellFormed fs path w = change_parent-IsWellFormed mkdir_child mkdir_child-Keeps fs path w

-- `remove` keeps the tree well formed, whether it succeeds or fails.
pub remove-IsWellFormed :
    (fs : FileSystem) (path : Str) → IsWellFormed fs.root → IsWellFormed (remove fs path).0.root
unfolding remove
remove-IsWellFormed fs path w =
    change_parent-IsWellFormed remove_child (λ n v. remove_child-Keeps n) fs path w
