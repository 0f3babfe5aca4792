-- ===== src/Vfs/View/Children.antt =====
-- The loops over the children of src/vfs.rs, by what `find_child` finds afterwards.
use open_kernel.Base.{
  ℕ, ◌≡◌, refl, Bool, true, false, Option, none, some, List, Str, ◌==◌, str_eq, if◌then◌else◌,
  arith, Option-cases, inl, inr, not,
}
use open_kernel.Vfs.Node.{
  Node, Nodes, file, directory, nil, cons, ChildRef, name, find_child, write_child, mkdir_child,
  remove_child,
}

-- A file with its bytes, or a directory.
pub data Entry : Type 0 where
  bytes : List ℕ → Entry
  dir : Entry

abbrev pub entry : Node → Entry
entry (file n content) = bytes content
entry (directory n children) = dir

abbrev pub is_some {ℓ} : {A : Type ℓ} → Option A → Bool
is_some none = false
is_some (some a) = true

-- The child that a name finds.
unfoldable pub child : Str → Nodes → Option Node
child p nil = none
child p (cons c cs) = let rest = child p cs in if name c == p then some c else rest

pub child-find_child :
    (p : Str) (cs : Nodes)
    → child p cs ≡ elim (find_child p cs) [ none ↦ none | some r ↦ some r.child ]
unfolding child find_child
child-find_child p nil = refl
child-find_child p (cons c cs) = elim (Option-cases (find_child p cs)) [
  | inl e ↦ ground (arith, child-find_child p cs)
  | inr (r, e) ↦ ground (arith, child-find_child p cs)
]

-- What is found has the name.
pub name-find_child :
    (p : Str) (cs : Nodes) {r : ChildRef} → find_child p cs ≡ some r → name r.child ≡ p
unfolding find_child
name-find_child p nil h = absurd (cc)
name-find_child p (cons c cs) h = elim (Option-cases (find_child p cs)) [
  | inl t ↦ ground arith
  | inr (r, t) ↦ ground (arith, name-find_child p cs {r = r} t)
]

-- Replacing what is found by a node of the same name changes what that name finds, and nothing
-- else.
pub child-replace :
    (p : Str) (cs : Nodes) {r : ChildRef}
    → find_child p cs ≡ some r
    → (m : Node) (q : Str) → name m ≡ p
    → child q (r.replace m) ≡ (if p == q then some m else child q cs)
unfolding find_child child
child-replace p nil h m q e = absurd (cc)
child-replace p (cons c cs) h m q e = elim (Option-cases (find_child p cs)) [
  | inl t ↦ ground arith
  | inr (r, t) ↦ ground (arith, child-replace p cs {r = r} t m q e)
]

pub child-write_child :
    (n : Str) (content : List ℕ) (cs : Nodes) {cs' : Nodes}
    → write_child n content cs ≡ some cs'
    → (q : Str) → child q cs' ≡ (if n == q then some (file n content) else child q cs)
unfolding write_child child
child-write_child n content nil h q = ground arith
child-write_child n content (cons (file k old) cs) h q =
    elim (Option-cases (write_child n content cs)) [
      | inl t ↦ ground arith
      | inr (r, t) ↦ ground (arith, child-write_child n content cs {cs' = r} t q)
    ]
child-write_child n content (cons (directory k ks) cs) h q =
    elim (Option-cases (write_child n content cs)) [
      | inl t ↦ ground arith
      | inr (r, t) ↦ ground (arith, child-write_child n content cs {cs' = r} t q)
    ]

-- A file may be written where there is no directory.
abbrev pub fits_file : Option Entry → Bool
fits_file (some dir) = false
fits_file (some (bytes b)) = true
fits_file none = true

abbrev pub entry? : Option Node → Option Entry
entry? none = none
entry? (some n) = some (entry n)

pub is_some-entry? : (o : Option Node) → is_some o ≡ is_some (entry? o)
is_some-entry? none = refl
is_some-entry? (some n) = refl

pub is_some-write_child :
    (n : Str) (content : List ℕ) (cs : Nodes)
    → is_some (write_child n content cs) ≡ fits_file (entry? (child n cs))
unfolding write_child child
is_some-write_child n content nil = refl
is_some-write_child n content (cons (file k old) cs) =
    elim (Option-cases (write_child n content cs)) [
      | inl t ↦ ground (arith, is_some-write_child n content cs)
      | inr (r, t) ↦ ground (arith, is_some-write_child n content cs)
    ]
is_some-write_child n content (cons (directory k ks) cs) =
    elim (Option-cases (write_child n content cs)) [
      | inl t ↦ ground (arith, is_some-write_child n content cs)
      | inr (r, t) ↦ ground (arith, is_some-write_child n content cs)
    ]

pub child-mkdir_child :
    (n : Str) (cs : Nodes) {cs' : Nodes}
    → mkdir_child n cs ≡ some cs'
    → (q : Str) → child q cs' ≡ (if n == q then some (directory n nil) else child q cs)
unfolding mkdir_child child
child-mkdir_child n nil h q = ground arith
child-mkdir_child n (cons c cs) h q = elim (Option-cases (mkdir_child n cs)) [
  | inl t ↦ ground arith
  | inr (r, t) ↦ ground (arith, child-mkdir_child n cs {cs' = r} t q)
]

pub is_some-mkdir_child :
    (n : Str) (cs : Nodes) → is_some (mkdir_child n cs) ≡ not (is_some (child n cs))
unfolding mkdir_child child
is_some-mkdir_child n nil = refl
is_some-mkdir_child n (cons c cs) = elim (Option-cases (mkdir_child n cs)) [
  | inl t ↦ ground (arith, is_some-mkdir_child n cs)
  | inr (r, t) ↦ ground (arith, is_some-mkdir_child n cs)
]

-- No two children have the same name.
abbrev pub DistinctNames : Nodes → Type 0
DistinctNames nil = Unit
DistinctNames (cons c cs) = (child (name c) cs ≡ none) × DistinctNames cs

pub child-remove_child :
    (n : Str) (cs : Nodes) {cs' : Nodes}
    → DistinctNames cs
    → remove_child n cs ≡ some cs'
    → (q : Str) → child q cs' ≡ (if n == q then none else child q cs)
unfolding remove_child child
child-remove_child n nil d h q = absurd (cc)
child-remove_child n (cons c cs) (fresh, d) h q = elim (Option-cases (remove_child n cs)) [
  | inl t ↦ ground arith
  | inr (r, t) ↦ ground (arith, child-remove_child n cs {cs' = r} d t q)
]

pub is_some-remove_child :
    (n : Str) (cs : Nodes) → is_some (remove_child n cs) ≡ is_some (child n cs)
unfolding remove_child child
is_some-remove_child n nil = refl
is_some-remove_child n (cons c cs) = elim (Option-cases (remove_child n cs)) [
  | inl t ↦ ground (arith, is_some-remove_child n cs)
  | inr (r, t) ↦ ground (arith, is_some-remove_child n cs)
]
