-- ===== src/Vfs/Valid.antt =====
-- The invariant of the two globals of src/vfs.rs.
use open_kernel.Base.{
  ℕ, ◌≡◌, ◌∙◌, refl, ap, Bool, true, false, not, none, some, List, [], ◌∷◌, Str, str_eq,
  if◌then◌else◌,
}
use open_kernel.Base.Text.{codes}
use open_kernel.Base.Utf8.{as_bytes}
use open_kernel.Vfs.FileSystem
use open_kernel.Vfs.FileSystem.{FileSystem}
use open_kernel.Vfs.Node.{directory, nil}
use open_kernel.Vfs.View.{view}
use open_kernel.Vfs.View.Children.{dir, bytes, fits_file, is_some}
use open_kernel.Vfs.Components.{components}
use open_kernel.Vfs.Spec
use open_kernel.Vfs.Spec.{change-root}
use open_kernel.Vfs.WellFormed.{IsWellFormed}
use open_kernel.Vfs.Change.{files}
use open_kernel.Vfs.Refine.{write_file_refines, mkdir_refines, remove_refines}
use open_kernel.Vfs.Preserve.{write_file-IsWellFormed, mkdir-IsWellFormed, remove-IsWellFormed}
use open_kernel.Vfs.Paths.{
  Vfs, initial, resolve_path, change_directory, write_file_string, create_dir, remove_node, to_path,
}
use open_kernel.Vfs.Resolve.{IsNormal, resolved_parts, resolve_path-IsNormal}
use open_kernel.Vfs.Strings.{change_directory_lem, is_directory}

-- A tree whose root is a directory, and which is well formed.
pub record IsSound (fs : FileSystem) : Type 0 where
  pub tree : IsWellFormed fs.root
  pub root : files fs [] ≡ some dir

-- The tree is sound, and the current directory is a normal path.
pub record IsValid (v : Vfs) : Type 0 where
  pub sound : IsSound v.fs
  pub normal : IsNormal v.current_dir

write_file-IsSound :
    (fs : FileSystem) (path : Str) (content : List ℕ)
    → IsSound fs
    → IsSound (FileSystem.write_file fs path content).0
unfolding Spec.write_file
write_file-IsSound fs path content s = record {
  tree = write_file-IsWellFormed fs path content s.tree;
  root =
      ap (λ r. r.0 []) (write_file_refines fs path content)
      ∙ change-root fits_file (some (bytes content)) (files fs) (components path)
      ∙ s.root;
}

mkdir-IsSound : (fs : FileSystem) (path : Str) → IsSound fs → IsSound (FileSystem.mkdir fs path).0
unfolding Spec.mkdir
mkdir-IsSound fs path s = record {
  tree = mkdir-IsWellFormed fs path s.tree;
  root =
      ap (λ r. r.0 []) (mkdir_refines fs path)
      ∙ change-root (λ old. not (is_some old)) (some dir) (files fs) (components path)
      ∙ s.root;
}

remove-IsSound : (fs : FileSystem) (path : Str) → IsSound fs → IsSound (FileSystem.remove fs path).0
unfolding Spec.remove
remove-IsSound fs path s = record {
  tree = remove-IsWellFormed fs path s.tree;
  root =
      ap (λ r. r.0 []) (remove_refines fs path s.tree)
      ∙ change-root is_some none (files fs) (components path)
      ∙ s.root;
}

new-IsSound : IsSound FileSystem.new
unfolding FileSystem.new view
new-IsSound = write_file-IsSound _ _ _ (
    write_file-IsSound _ _ _
      (write_file-IsSound _ _ _ (mkdir-IsSound _ _ (mkdir-IsSound _ _ (mkdir-IsSound _ _ empty)))))
  where
    empty : IsSound (record { root = directory (codes "/") nil })
    empty = record { tree = tt; root = refl }

-- The commands that change the globals.
pub data Op : Type 0 where
  cd mkdir rm : Str → Op
  write : Str → Str → Op

abbrev pub apply : Vfs → Op → Vfs
apply v (cd path) = (change_directory v path).0
apply v (mkdir path) = (create_dir v path).0
apply v (rm path) = (remove_node v path).0
apply v (write path text) = (write_file_string v path text).0

abbrev pub apply_all : Vfs → List Op → Vfs
apply_all v [] = v
apply_all v (op ∷ ops) = apply_all (apply v op) ops

change_directory-IsValid : (v : Vfs) (path : Str) → IsValid v → IsValid (change_directory v path).0
change_directory-IsValid v path h =
    rw (change_directory_lem v path h.sound.root)
      (go (is_directory (files v.fs (resolved_parts v.current_dir path))))
  where
    go :
        (b : Bool)
        → IsValid
            (if◌then◌else◌ {A = Vfs × Bool} b
              (record v { current_dir = resolve_path v.current_dir path }, true)
              (v, false)).0
    go true = record { sound = h.sound; normal = resolve_path-IsNormal v.current_dir path }
    go false = h

pub apply-IsValid : (v : Vfs) (op : Op) → IsValid v → IsValid (apply v op)
unfolding write_file_string create_dir remove_node
apply-IsValid v (cd path) h = change_directory-IsValid v path h
apply-IsValid v (mkdir path) h = record {
  sound = mkdir-IsSound v.fs (resolve_path v.current_dir path) h.sound;
  normal = h.normal;
}
apply-IsValid v (rm path) h = record {
  sound = remove-IsSound v.fs (resolve_path v.current_dir path) h.sound;
  normal = h.normal;
}
apply-IsValid v (write path text) h = record {
  sound = write_file-IsSound v.fs (resolve_path v.current_dir path) (as_bytes text) h.sound;
  normal = h.normal;
}

initial-IsValid : IsValid initial
unfolding to_path
initial-IsValid = record { sound = new-IsSound; normal = ([], refl, tt) }

apply_all-IsValid : (ops : List Op) (v : Vfs) → IsValid v → IsValid (apply_all v ops)
apply_all-IsValid [] v h = h
apply_all-IsValid (op ∷ ops) v h = apply_all-IsValid ops (apply v op) (apply-IsValid v op h)

-- After the boot and any sequence of commands the tree is well formed below a root directory, and
-- the current directory is a normal path.
pub commands-IsValid : (ops : List Op) → IsValid (apply_all initial ops)
commands-IsValid ops = apply_all-IsValid ops initial initial-IsValid
