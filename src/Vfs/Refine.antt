-- ===== src/Vfs/Refine.antt =====
-- The operations of src/vfs.rs against the abstract file system.
use open_kernel.Base.{
  ℕ, ◌≡◌, ◌≢◌, ◌∙◌, refl, subst, ap, Bool, true, false, not, Option, none, some, List, [], ◌∷◌,
  ◌++◌, Str, ◌==◌, str_eq, if◌then◌else◌, Option-cases, inl, inr,
}
use open_kernel.Vfs.Node.{
  Node, Nodes, file, directory, nil, walk, write_child, mkdir_child, remove_child,
}
use open_kernel.Vfs.FileSystem.{FileSystem, write_file, mkdir, remove, read_file}
use open_kernel.Vfs.View.{Files, view}
use open_kernel.Vfs.View.Children.{
  Entry, bytes, dir, entry, child, is_some, fits_file, child-write_child, is_some-write_child,
  child-mkdir_child, is_some-mkdir_child, is_some-entry?, DistinctNames, child-remove_child,
  is_some-remove_child,
}
use open_kernel.Vfs.Components.{components, find_node_mut_lem}
use open_kernel.Vfs.Spec
use open_kernel.Vfs.Spec.{update, split_last, change, in_parent}
use open_kernel.Vfs.WellFormed.{IsWellFormed, DistinctNames-of_wf, walk-IsWellFormed}
use open_kernel.Vfs.Change.{view-walk, view-walk-none, files, IsChange, seen, change_parent_refines}

write_child-IsChange :
    (n : Str) (content : List ℕ) (children : Nodes)
    → IsChange (write_child n content) n fits_file (some (file n content)) children
write_child-IsChange n content children = record {
  allowed = is_some-write_child n content children;
  changed = λ children' h q. child-write_child n content children h q;
}

mkdir_child-IsChange :
    (n : Str) (children : Nodes)
    → IsChange (mkdir_child n) n (λ old. not (is_some old)) (some (directory n nil)) children
mkdir_child-IsChange n children = record {
  allowed = is_some-mkdir_child n children ∙ ap not (is_some-entry? (child n children));
  changed = λ children' h q. child-mkdir_child n children h q;
}

-- `write_file` succeeds exactly if the path is not the root, its parent is a directory and no
-- directory has the path. Then the path holds the content, and every other path what it held
-- before; on failure nothing changes.
pub write_file_refines :
    (fs : FileSystem) (path : Str) (content : List ℕ)
    → seen (write_file fs path content) ≡ Spec.write_file (files fs) (components path) content
unfolding write_file Spec.write_file view
write_file_refines fs path content =
    change_parent_refines (λ n. write_child n content) fits_file (λ n. some (file n content))
      (some (bytes content)) (λ n. (λ x rest. refl, refl)) fs path
      (λ r ps n d children h t. write_child-IsChange n content children)

-- `mkdir` succeeds exactly if the path is not the root, its parent is a directory and nothing has
-- the path. Then the path is a directory with nothing in it, and every other path holds what it
-- held; on failure nothing changes.
pub mkdir_refines :
    (fs : FileSystem) (path : Str) → seen (mkdir fs path) ≡ Spec.mkdir (files fs) (components path)
unfolding mkdir Spec.mkdir view child
mkdir_refines fs path =
    change_parent_refines mkdir_child (λ old. not (is_some old)) (λ n. some (directory n nil))
      (some dir) (λ n. (λ x rest. refl, refl)) fs path
      (λ r ps n d children h t. mkdir_child-IsChange n children)

remove_child-IsChange :
    (n : Str) (children : Nodes)
    → DistinctNames children
    → IsChange (remove_child n) n is_some none children
remove_child-IsChange n children distinct = record {
  allowed = is_some-remove_child n children ∙ is_some-entry? (child n children);
  changed = λ children' h q. child-remove_child n children distinct h q;
}

-- In a well-formed tree `remove` succeeds exactly if the path is not the root, its parent is a
-- directory and something has the path. Then nothing stands at the path or below it, and every
-- other path holds what it held; on failure nothing changes.
pub remove_refines :
    (fs : FileSystem) (path : Str)
    → IsWellFormed fs.root
    → seen (remove fs path) ≡ Spec.remove (files fs) (components path)
unfolding remove Spec.remove
remove_refines fs path w =
    change_parent_refines remove_child is_some (λ n. none) none (λ n. (tt, refl)) fs path
      (λ r ps n d children h t.
        remove_child-IsChange n children (
          DistinctNames-of_wf children (subst IsWellFormed t (walk-IsWellFormed fs.root ps w h).0)))

-- `read_file` gives the content of the file that stands at the path, and `none` at a directory and
-- where nothing stands.
pub read_file_refines :
    (fs : FileSystem) (path : Str) → read_file fs path ≡ Spec.read_file (files fs) (components path)
unfolding read_file Spec.read_file
read_file_refines fs path = elim (Option-cases (walk fs.root (components path))) [
  | inl h ↦
      let e = find_node_mut_lem fs path ∙ h in
      rw (e, read_file, view-walk-none fs.root (components path) h, Spec.read_file)
  | inr (r, h) ↦
      let e = find_node_mut_lem fs path ∙ h in
      rw (e, read_file, view-walk fs.root (components path) h, Spec.read_file) (go r.target)
]
  where
    go :
        (m : Node)
        → elim m [ file n content ↦ some content | directory n children ↦ none ]
          ≡ elim (entry m) [ bytes b ↦ some b | dir ↦ none ]
    go (file n content) = refl
    go (directory n children) = refl

-- The kind that a listing shows for a name.
abbrev pub listed : Str → List (Str × Bool) → Option Bool
listed n [] = none
listed n ((k, is_dir) ∷ rest) = let later = listed n rest in if k == n then some is_dir else later

abbrev pub is_dir? : Option Entry → Option Bool
is_dir? none = none
is_dir? (some dir) = some true
is_dir? (some (bytes b)) = some false

-- What a listing of the path says of a name, where the path is a directory.
abbrev pub Lists : Files → List Str → Option (List (Str × Bool)) → Type 0
Lists F ps (some l) = (F ps ≡ some dir) × ((n : Str) → listed n l ≡ is_dir? (F (ps ++ n ∷ [])))
Lists F ps none = F ps ≢ some dir
