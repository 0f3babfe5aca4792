-- ===== src/Vfs/Strings.antt =====
-- The operations of src/vfs.rs relative to the current directory, against the abstract file system.
use open_kernel.Base.{
  ℕ, ◌≡◌, ◌≢◌, ◌∙◌, refl, sym, ap, subst, Bool, true, false, Option, none, some, List, [], ◌∷◌,
  ◌++◌, append-nil, Str, Str_dec, ◌==◌, str_eq, if◌then◌else◌, arith, Option-cases, inl, inr,
}
use open_kernel.Base.Text.{codes, split}
use open_kernel.Base.Text.Laws.{All}
use open_kernel.Base.Utf8.{as_bytes, from_utf8, IsScalar, from_utf8-as_bytes}
use open_kernel.Vfs.Node.{Node, NodeRef, file, directory, walk}
use open_kernel.Vfs.FileSystem
use open_kernel.Vfs.FileSystem.{FileSystem, find_node_mut}
use open_kernel.Vfs.View.{Files, view, strip, view-append}
use open_kernel.Vfs.View.Children.{Entry, bytes, dir, entry, fits_file}
use open_kernel.Vfs.Components.{components, find_node_mut_lem}
use open_kernel.Vfs.Spec
use open_kernel.Vfs.Spec.{update, override, change-done}
use open_kernel.Vfs.Change.{files, view-walk, view-walk-none, strip-some}
use open_kernel.Vfs.Refine.{write_file_refines, read_file_refines}
use open_kernel.Vfs.Paths.{
  Vfs, to_path, resolve_path, change_directory, write_file_string, read_file_string,
}
use open_kernel.Vfs.Resolve.{resolved_parts, resolve_path_lem, components-resolve_path}

-- Nothing stands below what is no directory.
pub view-below :
    (n : Node) (ps : List Str) (x : Str) (rest : List Str)
    → view n ps ≢ some dir
    → view n (ps ++ x ∷ rest) ≡ none
unfolding view
view-below n ps x rest h = elim (Option-cases (walk n ps)) [
  | inl e ↦ rw (view-append, e)
  | inr (r, e) ↦ rw (view-append, e) (go r.target (λ p. h (view-walk n ps e ∙ p)))
]
  where
    go : (m : Node) → ◌≢◌ {A = Option Entry} (some (entry m)) (some dir) → view m (x ∷ rest) ≡ none
    go (file k content) h = refl
    go (directory k children) h = absurd (h refl)

-- A write that succeeded found no directory at its path.
write_file-done :
    (F : Files) (path : List Str) (content : List ℕ)
    → (Spec.write_file F path content).1 ≡ true
    → ((Spec.write_file F path content).0 ≡ update F path (some (bytes content)))
      × (F path ≢ some dir)
unfolding Spec.write_file
write_file-done F path content h =
    let (e, p) = change-done fits_file (some (bytes content)) F path h in (e, λ q. fits q p)
  where
    fits : F path ≡ some dir → fits_file (F path) ≡ true → ⊥
    fits q p = cc (subst (λ x. fits_file x ≡ true) q p)

strip_self : (ps : List Str) → strip ps ps ≡ some []
strip_self [] = refl
strip_self (p ∷ ps) = rw (strip_self ps) (ground arith)

read_file-update :
    (n : Node) (path q : List Str) (content : List ℕ)
    → view n path ≢ some dir
    → (q ≡ path → Spec.read_file (update (view n) path (some (bytes content))) q ≡ some content)
      × (q ≢ path
          → Spec.read_file (update (view n) path (some (bytes content))) q
            ≡ Spec.read_file (view n) q)
unfolding Spec.read_file
read_file-update n path q content h =
    ((λ e. rw (e, strip_self path, Spec.read_file)), (λ ne. go (strip path q) refl ne))
  where
    reads : Option Entry → Option (List ℕ)
    reads o = elim o [ some (bytes b) ↦ some b | some dir ↦ none | none ↦ none ]

    go :
        (o : Option (List Str))
        → strip path q ≡ o
        → q ≢ path
        → reads (override o (some (bytes content)) (view n q)) ≡ reads (view n q)
    go none e ne = refl
    go (some []) e ne = absurd (ne (strip-some path q e ∙ append-nil path))
    go (some (x ∷ rest)) e ne = rw (strip-some path q e, view-below n path x rest h)

-- Two inputs resolve to one path exactly if they leave the same parts.
resolve_path-injective :
    (d p q : Str)
    → components (resolve_path d p) ≡ components (resolve_path d q)
    → resolve_path d p ≡ resolve_path d q
resolve_path-injective d p q e =
    resolve_path_lem d p
    ∙ ap to_path (sym (components-resolve_path d p) ∙ e ∙ components-resolve_path d q)
    ∙ sym (resolve_path_lem d q)

-- After a write that succeeded the written path reads as the content, however it is spelled, and
-- every other path reads as before.
pub read_file-write_file :
    (fs : FileSystem) (p q : Str) (content : List ℕ)
    → (FileSystem.write_file fs p content).1 ≡ true
    → (components q ≡ components p
        → FileSystem.read_file (FileSystem.write_file fs p content).0 q ≡ some content)
      × (components q ≢ components p
          → FileSystem.read_file (FileSystem.write_file fs p content).0 q
            ≡ FileSystem.read_file fs q)
read_file-write_file fs p q content done =
    let (same, other) = read_file-update fs.root (components p) (components q) content step.1 in
    (λ e. found ∙ same e, λ ne. found ∙ other ne ∙ sym (read_file_refines fs q))
  where
    spec_done : (Spec.write_file (files fs) (components p) content).1 ≡ true
    spec_done = sym (ap (λ r. r.1) (write_file_refines fs p content)) ∙ done

    step :
        ((Spec.write_file (files fs) (components p) content).0
          ≡ update (files fs) (components p) (some (bytes content)))
        × (files fs (components p) ≢ some dir)
    step = write_file-done (files fs) (components p) content spec_done

    found :
        FileSystem.read_file (FileSystem.write_file fs p content).0 q
        ≡ Spec.read_file (update (files fs) (components p) (some (bytes content))) (components q)
    found =
        read_file_refines (FileSystem.write_file fs p content).0 q
        ∙ ap (λ F. Spec.read_file F (components q))
            (ap (λ r. r.0) (write_file_refines fs p content) ∙ step.0)

-- What a path reads as after a write of scalar values that succeeded: the text that was written,
-- if it resolves to the written path, and what it read as before, if not.
pub read_file_string-write_file_string :
    (v : Vfs) (path text q : Str)
    → All IsScalar text
    → (write_file_string v path text).1 ≡ true
    → read_file_string (write_file_string v path text).0 q ≡ (
        if resolve_path v.current_dir q == resolve_path v.current_dir path
        then some text
        else read_file_string v q)
unfolding write_file_string read_file_string
read_file_string-write_file_string v path text q scalar done =
    elim (Str_dec rq rp)
      as (λ d. reads (FileSystem.read_file fs' rq) ≡ (
        if (elim d [ yes e ↦ true | no n ↦ false ])
        then some text
        else reads (FileSystem.read_file v.fs rq))) [
          | yes e ↦ ap reads (back.0 (ap components e)) ∙ from_utf8-as_bytes text scalar
          | no n ↦ ap reads (back.1 (λ e. n (resolve_path-injective v.current_dir q path e)))
        ]
  where
    rq : Str
    rq = resolve_path v.current_dir q

    rp : Str
    rp = resolve_path v.current_dir path

    fs' : FileSystem
    fs' = (FileSystem.write_file v.fs rp (as_bytes text)).0

    reads : Option (List ℕ) → Option Str
    reads o = elim o [ none ↦ none | some b ↦ from_utf8 b ]

    back :
        (components rq ≡ components rp → FileSystem.read_file fs' rq ≡ some (as_bytes text))
        × (components rq ≢ components rp
            → FileSystem.read_file fs' rq ≡ FileSystem.read_file v.fs rq)
    back = read_file-write_file v.fs rp rq (as_bytes text) done

-- A directory at a path.
abbrev pub is_directory : Option Entry → Bool
is_directory (some dir) = true
is_directory (some (bytes b)) = false
is_directory none = false

-- Where the root is a directory, `cd` succeeds exactly if a directory stands at the resolved path,
-- which then is the current directory. Otherwise nothing changes.
pub change_directory_lem :
    (v : Vfs) (path : Str)
    → files v.fs [] ≡ some dir
    → change_directory v path ≡ (
        if is_directory (files v.fs (resolved_parts v.current_dir path))
        then (record v { current_dir = resolve_path v.current_dir path }, true)
        else (v, false))
unfolding change_directory split
change_directory_lem v path root =
    rw (← components-resolve_path v.current_dir path)
      (elim (Str_dec resolved (codes "/"))
        as (λ d.
          (if (elim d [ yes e ↦ true | no n ↦ false ])
            then (record v { current_dir = codes "/" }, true)
            else search (find_node_mut v.fs resolved))
          ≡ (if is_directory (files v.fs (components resolved)) then entered else (v, false))) [
            | yes e ↦ rw (e, slash, root)
            | no n ↦
                rw (find_node_mut_lem v.fs resolved)
                  (go (walk v.fs.root (components resolved)) refl)
          ])
  where
    resolved : Str
    resolved = resolve_path v.current_dir path

    entered : Vfs × Bool
    entered = (record v { current_dir = resolved }, true)

    enter : Node → Vfs × Bool
    enter m = elim m [ directory n children ↦ entered | file n content ↦ (v, false) ]

    search : Option NodeRef → Vfs × Bool
    search o = elim o [ none ↦ (v, false) | some r ↦ enter r.target ]

    slash : components (codes "/") ≡ []
    slash = refl

    at_node : (m : Node) → enter m ≡ (if is_directory (some (entry m)) then entered else (v, false))
    at_node (file n content) = refl
    at_node (directory n children) = refl

    go :
        (o : Option NodeRef)
        → walk v.fs.root (components resolved) ≡ o
        → search o
          ≡ (if is_directory (files v.fs (components resolved)) then entered else (v, false))
    go none h = rw (view-walk-none v.fs.root (components resolved) h)
    go (some r) h = rw (view-walk v.fs.root (components resolved) h) (at_node r.target)
