-- ===== src/Vfs/View.antt =====
-- The abstract file system: what stands at each path, given as its components, with no regard to
-- the order of the children. The walk of src/vfs.rs and its loops over children in these terms.
pub mod Children
use open_kernel.Base.{
  ℕ, ◌≡◌, ◌∙◌, refl, Bool, true, false, Option, none, some, List, [], ◌∷◌, ◌++◌, Str, ◌==◌, str_eq,
  ap, if◌then◌else◌, arith, Option-cases, Bool-cases, inl, inr,
}
use open_kernel.Vfs.View.Children.{
  Entry, bytes, dir, entry, child, child-find_child, name-find_child, child-replace,
}
use open_kernel.Vfs.Node.{Node, Nodes, file, directory, NodeRef, ChildRef, name, find_child, walk}

abbrev pub Files : Type 0
Files = List Str → Option Entry

-- What stands at the path `ps` below a node.
unfoldable pub view : Node → Files
view n [] = some (entry n)
view (file n content) (p ∷ ps) = none
view (directory n children) (p ∷ ps) = elim (child p children) [ none ↦ none | some c ↦ view c ps ]

-- The rest of a path below `ps`, if it is at or below `ps`.
abbrev pub strip : List Str → List Str → Option (List Str)
strip [] qs = some qs
strip (p ∷ ps) [] = none
strip (p ∷ ps) (q ∷ qs) = let rest = strip ps qs in if p == q then rest else none

-- What a walk reaches shows what stands below it.
pub view-append :
    (n : Node) (ps qs : List Str)
    → view n (ps ++ qs) ≡ elim (walk n ps) [ none ↦ none | some r ↦ view r.target qs ]
unfolding view walk
view-append n [] qs = refl
view-append (file n content) (p ∷ ps) qs = refl
view-append (directory n children) (p ∷ ps) qs = elim (Option-cases (find_child p children)) [
  | inl e ↦ ground (arith, child-find_child p children)
  | inr (r, e) ↦ elim (Option-cases (walk r.child ps)) [
    | inl f ↦ ground (arith, child-find_child p children, view-append r.child ps qs)
    | inr (s, f) ↦ ground (arith, child-find_child p children, view-append r.child ps qs)
  ]
]

pub strip-append :
    (ps qs rs : List Str)
    → strip (ps ++ qs) rs ≡ elim (strip ps rs) [ none ↦ none | some r ↦ strip qs r ]
strip-append [] qs rs = refl
strip-append (p ∷ ps) qs [] = refl
strip-append (p ∷ ps) qs (r ∷ rs) = elim (Bool-cases (p == r)) [
  | inl t ↦ rw t (strip-append ps qs rs)
  | inr t ↦ rw t
]

-- A walk through a directory goes by one of its children.
pub walk-cons :
    (n : Str) (children : Nodes) (p : Str) (ps : List Str) {s : NodeRef}
    → walk (directory n children) (p ∷ ps) ≡ some s
    → (r : ChildRef) × (t : NodeRef) × (find_child p children ≡ some r)
      × (walk r.child ps ≡ some t)
      × (s ≡ record {
        target = t.target;
        write_back = λ m. directory n (r.replace (t.write_back m));
      })
unfolding walk
walk-cons n children p ps h = elim (Option-cases (find_child p children)) [
  | inl e ↦ absurd (ground arith)
  | inr (r, e) ↦ elim (Option-cases (walk r.child ps)) [
    | inl f ↦ absurd (ground arith)
    | inr (t, f) ↦ (r, t, e, f, ground arith)
  ]
]

-- Replacing a child changes the paths below its name, and no others.
view-replace :
    (n : Str) (children : Nodes) (p : Str) {r : ChildRef}
    → find_child p children ≡ some r
    → (k : Node) → name k ≡ name r.child
    → (q : Str) (qs : List Str)
    → view (directory n (r.replace k)) (q ∷ qs)
      ≡ (if p == q then view k qs else view (directory n children) (q ∷ qs))
unfolding view
view-replace n children p {r} h k e q qs =
    rw (child-replace p children h k q (e ∙ name-find_child p children h), view) (ground arith)

-- Writing back through a reference changes the paths at and below it, and no others.
pub view-write_back :
    (n : Node) (ps : List Str) {r : NodeRef}
    → walk n ps ≡ some r
    → (m : Node) → name m ≡ name r.target
    → (qs : List Str)
    → (name (r.write_back m) ≡ name n)
      × (view (r.write_back m) qs
          ≡ elim (strip ps qs) [ some rest ↦ view m rest | none ↦ view n qs ])
unfolding view walk
view-write_back n [] h m e qs = ground arith
view-write_back (file n content) (p ∷ ps) h m e qs = absurd (cc)
view-write_back (directory n children) (p ∷ ps) h m e [] =
    let (r, t, found, rest, eq) = walk-cons n children p ps h in ground arith
view-write_back (directory n children) (p ∷ ps) {r = s} h m e (q ∷ qs) =
    let (r, t, found, rest, eq) = walk-cons n children p ps h in
    let ih = view-write_back r.child ps {r = t} rest m (e ∙ ap (λ s. name s.target) eq) qs in
    rw eq (
      refl,
      rw (view-replace n children p found (t.write_back m) ih.0 q qs)
          (ground (arith, child-find_child p children)),
    )
