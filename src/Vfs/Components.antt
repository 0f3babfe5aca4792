-- ===== src/Vfs/Components.antt =====
-- Paths of src/vfs.rs as their components, the pieces between the slashes that are not empty.
use open_kernel.Base.{
  ◌≡◌, ◌≢◌, ◌∙◌, refl, sym, ap, Bool, false, Option, none, some, List, [], ◌∷◌, ◌++◌, Str,
  if◌then◌else◌, Option-cases, inl, inr,
}
use open_kernel.Base.Text.{is_empty, trim_matches, split, rsplit_once, trim_start, filter_nonempty}
use open_kernel.Base.Text.Laws.{
  pieces, Lacks, pieces-trim_matches, split-append, split_of_Lacks, rsplit_once-some,
  rsplit_once-none, trim_end-last, filter_nonempty-append,
}
use open_kernel.Vfs.Node.{Nodes, walk}
use open_kernel.Vfs.FileSystem.{
  FileSystem, is_slash, clean_path, find_node_mut, parent_and_name, change_children, change_cleaned,
  change_parent,
}

abbrev pub components : Str → List Str
components path = pieces b'/' path

-- A name that can be a component.
abbrev pub IsName : Str → Type 0
IsName n = (n ≢ []) × Lacks b'/' n

pieces-clean_path : (path : Str) → pieces b'/' (clean_path path) ≡ components path
unfolding clean_path
pieces-clean_path path = pieces-trim_matches b'/' path

pub find_node_mut_lem :
    (fs : FileSystem) (path : Str) → find_node_mut fs path ≡ walk fs.root (components path)
unfolding find_node_mut walk split
find_node_mut_lem fs path = go (clean_path path) ∙ ap (walk fs.root) (pieces-clean_path path)
  where
    go :
        (s : Str)
        → (if is_empty s
            then some (record { target = fs.root; write_back = λ n. n })
            else walk fs.root (filter_nonempty (split b'/' s)))
          ≡ walk fs.root (pieces b'/' s)
    go [] = refl
    go (x ∷ s) = refl

filter_nonempty-single : (a : Str) → a ≢ [] → filter_nonempty (a ∷ []) ≡ a ∷ []
filter_nonempty-single [] h = absurd (h refl)
filter_nonempty-single (x ∷ a) h = refl

pieces_of_Lacks : (s : Str) → Lacks b'/' s → s ≢ [] → pieces b'/' s ≡ s ∷ []
pieces_of_Lacks s h ne = rw (split_of_Lacks b'/' s h) (filter_nonempty-single s ne)

pub pieces-append : (b a : Str) → pieces b'/' (b ++ b'/' ∷ a) ≡ components b ++ components a
pieces-append b a =
    rw (split-append b'/' b a) (filter_nonempty-append (split b'/' b) (split b'/' a))

-- A cleaned path that is not empty splits into the components of its parent and a last name.
parent_and_name_lem :
    (s : Str)
    → ((b : Str) → s ≢ b ++ b'/' ∷ [])
    → s ≢ []
    → (pieces b'/' s ≡ components (parent_and_name s).0 ++ (parent_and_name s).1 ∷ [])
      × IsName (parent_and_name s).1
unfolding parent_and_name split
parent_and_name_lem s ends ne = elim (Option-cases (rsplit_once b'/' s)) [
  | inl e ↦
      let h = rsplit_once-none b'/' s e in rw (e, parent_and_name) (pieces_of_Lacks s h ne, (ne, h))
  | inr ((b, a), e) ↦
      let (eq, h) = rsplit_once-some b'/' s e in
      let ne_a : a ≢ [] = λ p. ends b (eq ∙ ap (λ t. b ++ b'/' ∷ t) p) in
      rw (e, parent_and_name)
        (
          ap (pieces b'/') eq
              ∙ pieces-append b a
              ∙ ap (λ t. components b ++ t) (pieces_of_Lacks a h ne_a),
          (ne_a, h),
        )
]

pub clean_path_ends : (path b : Str) → clean_path path ≢ b ++ b'/' ∷ []
unfolding clean_path trim_matches
clean_path_ends path b = trim_end-last b'/' (trim_start is_slash path) b

-- The node that a change replaces, and its outcome, by the components of a path.
unfoldable pub at_parent :
    (Str → Nodes → Option Nodes) → FileSystem → List Str → Str → FileSystem × Bool
at_parent change fs ps n = elim (walk fs.root ps) [
  | none ↦ (fs, false)
  | some r ↦ change_children (change n) fs r r.target
]

-- A path without components is refused. Any other splits into a parent and a name.
pub data Target (change : Str → Nodes → Option Nodes) (fs : FileSystem) (path : Str) : Type 0 where
  root_path :
      components path ≡ [] → change_parent change fs path ≡ (fs, false) → Target change fs path
  below :
      (ps : List Str) (n : Str)
      → components path ≡ ps ++ n ∷ []
      → IsName n
      → change_parent change fs path ≡ at_parent change fs ps n
      → Target change fs path

pub target :
    (change : Str → Nodes → Option Nodes) (fs : FileSystem) (path : Str) → Target change fs path
unfolding change_parent change_cleaned at_parent split
target change fs path = go (clean_path path) refl
  where
    go : (s : Str) → clean_path path ≡ s → Target change fs path
    go [] e =
        root_path (sym (pieces-clean_path path) ∙ ap (pieces b'/') e)
          (ap (change_cleaned change fs) e)
    go (x ∷ s) e =
        let (eq, h) =
          parent_and_name_lem (x ∷ s) (λ b p. clean_path_ends path b (e ∙ p)) (λ p. cc p) in
        below (components (parent_and_name (x ∷ s)).0) (parent_and_name (x ∷ s)).1
          (sym (pieces-clean_path path) ∙ ap (pieces b'/') e ∙ eq) h
          (ap (change_cleaned change fs) e ∙ rw find_node_mut_lem)
