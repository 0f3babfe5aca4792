-- ===== src/Vfs/Change.antt =====
-- A change of the children of a parent directory in src/vfs.rs is the change of one entry of the
-- abstract file system.
use open_kernel.Base.{
  ◌≡◌, ◌∙◌, refl, sym, ap, ap₂, Bool, true, false, Option, none, some, List, [], ◌∷◌, ◌++◌,
  append-nil, Str, ◌==◌, str_eq, if◌then◌else◌, arith, Option-cases, inl, inr,
}
use mathlib.Core.Path.{fun_ext}
use open_kernel.Vfs.Node.{Node, Nodes, file, directory, NodeRef, name, walk}
use open_kernel.Vfs.FileSystem.{FileSystem, change_children, change_parent}
use open_kernel.Vfs.View.{Files, view, strip, view-append, view-write_back, strip-append}
use open_kernel.Vfs.View.Children.{Entry, dir, entry, child, entry?, is_some}
use open_kernel.Vfs.Components.{components, at_parent, Target, target, root_path, below}
use open_kernel.Vfs.Spec.{update, split_last, change, in_parent}

-- What stands at each path of a file system.
abbrev pub files : FileSystem → Files
files fs = view fs.root

pub split_last-append : (ps : List Str) (n : Str) → split_last (ps ++ n ∷ []) ≡ some (ps, n)
split_last-append [] n = refl
split_last-append (p ∷ ps) n = rw (split_last-append ps n)

change-append :
    (permits : Option Entry → Bool) (e : Option Entry) (F : Files) (ps : List Str) (n : Str)
    → change permits e F (ps ++ n ∷ [])
      ≡ in_parent (F ps) (permits (F (ps ++ n ∷ []))) (update F (ps ++ n ∷ []) e) F
change-append permits e F ps n = rw (split_last-append ps n, change)

-- A change of the children of one name: when it may happen, and what the name finds after it.
pub record IsChange (op : Nodes → Option Nodes) (n : Str) (permits : Option Entry → Bool)
    (new : Option Node) (children : Nodes) : Type 0 where
  pub allowed : is_some (op children) ≡ permits (entry? (child n children))
  pub changed :
      (children' : Nodes)
      → op children ≡ some children'
      → (q : Str) → child q children' ≡ (if n == q then new else child q children)

-- A node with nothing below it, or no node.
abbrev pub IsLeaf : Option Node → Type 0
IsLeaf none = Unit
IsLeaf (some m) = (x : Str) (rest : List Str) → view m (x ∷ rest) ≡ none

pub strip-some : (ps qs : List Str) {rs : List Str} → strip ps qs ≡ some rs → qs ≡ ps ++ rs
strip-some [] qs h = ground arith
strip-some (p ∷ ps) [] h = absurd (cc)
strip-some (p ∷ ps) (q ∷ qs) h = elim (Option-cases (strip ps qs)) [
  | inl e ↦ absurd (ground arith)
  | inr (r, e) ↦ ground (arith, strip-some ps qs {rs = r} e)
]

-- What stands below a directory after one of its names finds another node.
view-children :
    (d n : Str) (children children' : Nodes) (new : Option Node)
    → IsLeaf new
    → ((q : Str) → child q children' ≡ (if n == q then new else child q children))
    → (rs : List Str)
    → view (directory d children') rs
      ≡ update (view (directory d children)) (n ∷ []) (entry? new) rs
unfolding view
view-children d n children children' new leaf eq [] = refl
view-children d n children children' none leaf eq (q ∷ []) = ground (arith, eq q)
view-children d n children children' none leaf eq (q ∷ x ∷ rs) = ground (arith, eq q)
view-children d n children children' (some m) leaf eq (q ∷ []) = ground (arith, eq q)
view-children d n children children' (some m) leaf eq (q ∷ x ∷ rs) = ground (arith, eq q, leaf x rs)

view-change :
    (root : Node) (ps : List Str) {r : NodeRef}
    → walk root ps ≡ some r
    → (d n : Str) (children children' : Nodes) (new : Option Node) → r.target ≡ directory d children
    → IsLeaf new
    → ((q : Str) → child q children' ≡ (if n == q then new else child q children))
    → (qs : List Str)
    → view (r.write_back (directory d children')) qs
      ≡ update (view root) (ps ++ n ∷ []) (entry? new) qs
view-change root ps {r} h d n children children' new t leaf eq qs =
    (view-write_back root ps h (directory d children') (ap name (sym t)) qs).1
    ∙ go (strip ps qs) refl
  where
    below : (rs : List Str) → strip ps qs ≡ some rs → view (directory d children) rs ≡ view root qs
    below rs e = ap (λ m. view m rs) (sym t) ∙ sym (rw (strip-some ps qs e, view-append, h))

    go :
        (o : Option (List Str))
        → strip ps qs ≡ o
        → elim o [ some rest ↦ view (directory d children') rest | none ↦ view root qs ]
          ≡ update (view root) (ps ++ n ∷ []) (entry? new) qs
    go none e = rw (strip-append, e)
    go (some rs) e =
        rw (strip-append, e, ← below rs e) (view-children d n children children' new leaf eq rs)

-- The outcome of an operation, with what stands at each path after it.
abbrev pub seen : FileSystem × Bool → Files × Bool
seen (fs, done) = (files fs, done)

pub view-walk-none : (n : Node) (ps : List Str) → walk n ps ≡ none → view n ps ≡ none
view-walk-none n ps h = ap (view n) (sym (append-nil ps)) ∙ rw (view-append, h)

pub view-walk :
    (n : Node) (ps : List Str) {r : NodeRef}
    → walk n ps ≡ some r
    → view n ps ≡ some (entry r.target)
unfolding view
view-walk n ps h = ap (view n) (sym (append-nil ps)) ∙ rw (view-append, h)

pub view-name :
    (d n : Str) (children : Nodes)
    → entry? (child n children) ≡ view (directory d children) (n ∷ [])
unfolding view
view-name d n children = elim (Option-cases (child n children)) [
  | inl h ↦ rw (h, view)
  | inr (c, h) ↦ rw (h, view)
]

module _ (op : Str → Nodes → Option Nodes) (permits : Option Entry → Bool) (new : Str → Option Node)
    (e : Option Entry) (leaf : (n : Str) → IsLeaf (new n) × (entry? (new n) ≡ e)) where
  -- What the abstract operation does, by the entries at the parent and at the path.
  abbrev outcome : FileSystem → List Str → Str → Option Entry → Option Entry → Files × Bool
  outcome fs ps n parent old =
      in_parent parent (permits old) (update (files fs) (ps ++ n ∷ []) e) (files fs)

  change_children_refines :
      (fs : FileSystem) (ps : List Str) (n : Str) (r : NodeRef) (d : Str) (children : Nodes)
      → walk fs.root ps ≡ some r
      → r.target ≡ directory d children
      → IsChange (op n) n permits (new n) children
      → seen (change_children (op n) fs r (directory d children))
        ≡ outcome fs ps n (some dir) (entry? (child n children))
  unfolding change_children
  change_children_refines fs ps n r d children h t is_change = go (op n children) refl
    where
      go :
          (o : Option Nodes)
          → op n children ≡ o
          → seen (elim o [
            | none ↦ (fs, false)
            | some children' ↦ (record { root = r.write_back (directory d children') }, true)
          ])
            ≡ outcome fs ps n (some dir) (entry? (child n children))
      go none eq = rw (← is_change.allowed, eq)
      go (some children') eq =
          rw (← is_change.allowed, eq)
            (ap (λ F. (F, true))
              (fun_ext λ qs.
                view-change fs.root ps h d n children children' (new n) t (leaf n).0
                  (is_change.changed children' eq) qs
                ∙ ap (λ x. update (files fs) (ps ++ n ∷ []) x qs) (leaf n).1))

  at_parent_refines :
      (fs : FileSystem) (ps : List Str) (n : Str)
      → ((r : NodeRef) (d : Str) (children : Nodes)
          → walk fs.root ps ≡ some r
          → r.target ≡ directory d children
          → IsChange (op n) n permits (new n) children)
      → seen (at_parent op fs ps n)
        ≡ outcome fs ps n (view fs.root ps) (view fs.root (ps ++ n ∷ []))
  unfolding at_parent view change_children
  at_parent_refines fs ps n is_change = at_walk (walk fs.root ps) refl
    where
      at_target :
          (r : NodeRef) (m : Node)
          → walk fs.root ps ≡ some r
          → r.target ≡ m
          → seen (change_children (op n) fs r m)
            ≡ outcome fs ps n (some (entry m)) (view m (n ∷ []))
      at_target r (file k content) h t = refl
      at_target r (directory d children) h t =
          change_children_refines fs ps n r d children h t (is_change r d children h t)
          ∙ ap (outcome fs ps n (some dir)) (view-name d n children)

      at_walk :
          (w : Option NodeRef)
          → walk fs.root ps ≡ w
          → seen (at_parent op fs ps n)
            ≡ outcome fs ps n (view fs.root ps) (view fs.root (ps ++ n ∷ []))
      at_walk none h = rw (h, at_parent, view-walk-none fs.root ps h)
      at_walk (some r) h =
          rw (h, at_parent)
            (at_target r r.target h refl
              ∙ ap₂ (outcome fs ps n) (sym (view-walk fs.root ps h)) (sym (rw (view-append, h))))

  -- A change of a parent's children is the change of one entry that it stands for.
  pub change_parent_refines :
      (fs : FileSystem) (path : Str)
      → ((r : NodeRef) (ps : List Str) (n d : Str) (children : Nodes)
          → walk fs.root ps ≡ some r
          → r.target ≡ directory d children
          → IsChange (op n) n permits (new n) children)
      → seen (change_parent op fs path) ≡ change permits e (files fs) (components path)
  change_parent_refines fs path is_change = go (target op fs path)
    where
      go :
          Target op fs path
          → seen (change_parent op fs path) ≡ change permits e (files fs) (components path)
      go (root_path c eq) = rw (c, eq)
      go (below ps n c valid eq) =
          ap seen eq
          ∙ at_parent_refines fs ps n (λ r d children. is_change r ps n d children)
          ∙ sym (change-append permits e (files fs) ps n)
          ∙ ap (change permits e (files fs)) (sym c)
