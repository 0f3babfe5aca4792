-- ===== src/Vfs/WellFormed.antt =====
-- The invariant of the tree of src/vfs.rs: the children of a directory have distinct names, each a
-- component of a path, and are well formed themselves.
use open_kernel.Base.{
  ℕ, ◌≡◌, ◌∙◌, refl, of_some, Option, none, some, List, [], ◌∷◌, Str, ◌==◌, str_eq, arith,
  Option-cases, Bool-cases, inl, inr,
}
use open_kernel.Vfs.Node.{
  Node, Nodes, file, directory, nil, cons, NodeRef, ChildRef, name, find_child, walk, write_child,
  mkdir_child, remove_child,
}
use open_kernel.Vfs.View.{walk-cons}
use open_kernel.Vfs.View.Children.{
  child, name-find_child, child-replace, child-write_child, child-remove_child, child-mkdir_child,
  DistinctNames,
}
use open_kernel.Vfs.Components.{IsName}

abbrev mutual
  pub IsWellFormed : Node → Type 0
  IsWellFormed (file n content) = Unit
  IsWellFormed (directory n children) = AreWellFormed children

  pub AreWellFormed : Nodes → Type 0
  AreWellFormed nil = Unit
  AreWellFormed (cons c cs) =
      IsName (name c) × (child (name c) cs ≡ none) × IsWellFormed c × AreWellFormed cs

pub DistinctNames-of_wf : (cs : Nodes) → AreWellFormed cs → DistinctNames cs
DistinctNames-of_wf nil w = tt
DistinctNames-of_wf (cons c cs) (h, fresh, wc, w) = (fresh, DistinctNames-of_wf cs w)

child-IsWellFormed :
    (p : Str) (cs : Nodes) {r : ChildRef}
    → AreWellFormed cs
    → find_child p cs ≡ some r
    → IsWellFormed r.child
unfolding find_child
child-IsWellFormed p nil w h = absurd (cc)
child-IsWellFormed p (cons c cs) (v, fresh, wc, w) h = elim (Bool-cases (name c == p)) [
  | inl e ↦ of_some (λ (s : ChildRef). IsWellFormed s.child) (rw (e) at h) wc
  | inr e ↦ elim (Option-cases (find_child p cs)) [
    | inl t ↦ absurd (ground arith)
    | inr (s, t) ↦
        of_some (λ (s : ChildRef). IsWellFormed s.child) (rw (e, t) at h)
          (child-IsWellFormed p cs w t)
  ]
]

replace-AreWellFormed :
    (p : Str) (cs : Nodes) {r : ChildRef}
    → AreWellFormed cs
    → find_child p cs ≡ some r
    → (m : Node) → name m ≡ p
    → IsWellFormed m
    → AreWellFormed (r.replace m)
unfolding find_child
replace-AreWellFormed p nil w h m k wm = absurd (cc)
replace-AreWellFormed p (cons c cs) (v, fresh, wc, w) h m k wm = elim (Bool-cases (name c == p)) [
  | inl e ↦
      let q : name c ≡ name m = ground arith in
      of_some (λ (s : ChildRef). AreWellFormed (s.replace m)) (rw (e) at h)
        (rw (← q) v, rw (← q) fresh, wm, w)
  | inr e ↦ elim (Option-cases (find_child p cs)) [
    | inl t ↦ absurd (ground arith)
    | inr (s, t) ↦
        of_some (λ (s : ChildRef). AreWellFormed (s.replace m)) (rw (e, t) at h)
          (
            v,
            child-replace p cs t m (name c) k ∙ ground arith,
            wc,
            replace-AreWellFormed p cs w t m k wm,
          )
  ]
]

-- A change of the children of a directory keeps them well formed.
abbrev pub Keeps : (Nodes → Option Nodes) → Type 0
Keeps op = (cs cs' : Nodes) → AreWellFormed cs → op cs ≡ some cs' → AreWellFormed cs'

pub write_child-Keeps : (n : Str) (content : List ℕ) → IsName n → Keeps (write_child n content)
unfolding write_child child
write_child-Keeps n content v nil cs' w h = of_some AreWellFormed h (v, refl, tt, tt)
write_child-Keeps n content v (cons (file k old) cs) cs' (vk, fresh, wc, w) h =
    elim (Bool-cases (k == n)) [
      | inl e ↦ of_some AreWellFormed (rw (e) at h) (vk, fresh, tt, w)
      | inr e ↦ elim (Option-cases (write_child n content cs)) [
        | inl t ↦ absurd (ground arith)
        | inr (r, t) ↦ of_some AreWellFormed (rw (e, t) at h) (
          vk,
          child-write_child n content cs t k ∙ ground arith,
          tt,
          write_child-Keeps n content v cs r w t,
        )
      ]
    ]
write_child-Keeps n content v (cons (directory k ks) cs) cs' (vk, fresh, wc, w) h =
    elim (Bool-cases (k == n)) [
      | inl e ↦ absurd (ground arith)
      | inr e ↦ elim (Option-cases (write_child n content cs)) [
        | inl t ↦ absurd (ground arith)
        | inr (r, t) ↦ of_some AreWellFormed (rw (e, t) at h) (
          vk,
          child-write_child n content cs t k ∙ ground arith,
          wc,
          write_child-Keeps n content v cs r w t,
        )
      ]
    ]

pub mkdir_child-Keeps : (n : Str) → IsName n → Keeps (mkdir_child n)
unfolding mkdir_child child
mkdir_child-Keeps n v nil cs' w h = of_some AreWellFormed h (v, refl, tt, tt)
mkdir_child-Keeps n v (cons c cs) cs' (vc, fresh, wc, w) h = elim (Bool-cases (name c == n)) [
  | inl e ↦ absurd (ground arith)
  | inr e ↦ elim (Option-cases (mkdir_child n cs)) [
    | inl t ↦ absurd (ground arith)
    | inr (r, t) ↦
        of_some AreWellFormed (rw (e, t) at h)
          (vc, child-mkdir_child n cs t (name c) ∙ ground arith, wc, mkdir_child-Keeps n v cs r w t)
  ]
]

pub remove_child-Keeps : (n : Str) → Keeps (remove_child n)
unfolding remove_child child
remove_child-Keeps n nil cs' w h = absurd (cc)
remove_child-Keeps n (cons c cs) cs' (vc, fresh, wc, w) h = elim (Bool-cases (name c == n)) [
  | inl e ↦ of_some AreWellFormed (rw (e) at h) w
  | inr e ↦ elim (Option-cases (remove_child n cs)) [
    | inl t ↦ absurd (ground arith)
    | inr (r, t) ↦ of_some AreWellFormed (rw (e, t) at h) (
      vc,
      child-remove_child n cs (DistinctNames-of_wf cs w) t (name c) ∙ ground arith,
      wc,
      remove_child-Keeps n cs r w t,
    )
  ]
]

-- A walk leads to a well-formed node, and a well-formed node of the same name may be written back.
pub walk-IsWellFormed :
    (n : Node) (ps : List Str) {r : NodeRef}
    → IsWellFormed n
    → walk n ps ≡ some r
    → IsWellFormed r.target
      × ((m : Node)
          → name m ≡ name r.target
          → IsWellFormed m
          → IsWellFormed (r.write_back m) × (name (r.write_back m) ≡ name n))
unfolding walk
walk-IsWellFormed n [] w h =
    of_some
      (λ (s : NodeRef).
        IsWellFormed s.target
        × ((m : Node)
            → name m ≡ name s.target
            → IsWellFormed m
            → IsWellFormed (s.write_back m) × (name (s.write_back m) ≡ name n)))
      h (w, λ m e wm. (wm, e))
walk-IsWellFormed (file k content) (p ∷ ps) w h = absurd (cc)
walk-IsWellFormed (directory k children) (p ∷ ps) {r} w h =
    let (c, t, found, rest, eq) = walk-cons k children p ps h in
    let (wt, back) = walk-IsWellFormed c.child ps (child-IsWellFormed p children w found) rest in
    rw eq (
      wt,
      λ m e wm.
          let (wb, nb) = back m e wm in
          (
            replace-AreWellFormed p children w found (t.write_back m)
                (nb ∙ name-find_child p children found) wb,
            refl,
          ),
    )
