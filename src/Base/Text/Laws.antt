-- ===== src/Base/Text/Laws.antt =====
-- How trimming, splitting and joining fit together.
use open_kernel.Base.Text.{
  is_empty, trim_start, trim_end, trim_matches, split, push_head, rsplit_once, join,
  filter_nonempty,
}
use open_kernel.Base.Equality.{Str, ◌==◌, nat_eq}
use open_kernel.Base.Tests.{if◌then◌else◌, Bool-cases, Option-cases}
use open_kernel.Base.Lists.{replicate}
use Prim.Native.Nat.{ℕ, zero, suc}
use mathlib.Core.Path.{◌≡◌, refl, ap, ◌∙◌, sym}
use mathlib.Core.Logic.{◌≢◌, inl, inr}
use mathlib.Core.Bool.{◌&&◌}
use mathlib.Core.Option.{none, some}
use mathlib.Core.List.{List, [], ◌∷◌, ◌++◌, append-nil}
use native.Mathlib.Omega.{arith}

-- Every character of the text passes the test.
abbrev pub All {ℓ κ} : {A : Type ℓ} → (A → Type κ) → List A → Type κ
All P [] = Unit
All P (x ∷ xs) = P x × All P xs

pub All-append {ℓ κ} :
    {A : Type ℓ} (P : A → Type κ) (xs ys : List A) → All P xs → All P ys → All P (xs ++ ys)
All-append P [] ys h k = k
All-append P (x ∷ xs) ys (hx, h) k = (hx, All-append P xs ys h k)

push_head-append {ℓ} :
    {A : Type ℓ} (x : A) (ps qs : List (List A))
    → ps ≢ []
    → push_head x (ps ++ qs) ≡ push_head x ps ++ qs
push_head-append x [] qs h = absurd (h refl)
push_head-append x (p ∷ ps) qs h = refl

pub split-ne-nil : (c : ℕ) (s : Str) → split c s ≢ []
unfolding split
split-ne-nil c [] = λ e. cc e
split-ne-nil c (x ∷ s) = go (split c s)
  where
    go : (r : List Str) → (if x == c then [] ∷ r else push_head x r) ≢ []
    go [] = ground arith
    go (p ∷ r) = ground arith

pub split-append : (c : ℕ) (s t : Str) → split c (s ++ c ∷ t) ≡ split c s ++ split c t
unfolding split
split-append c [] t = ground arith
split-append c (x ∷ s) t = elim (Bool-cases (x == c)) [
  | inl e ↦ rw (e, split-append c s t)
  | inr e ↦ rw (e, split-append c s t) (push_head-append x _ _ (split-ne-nil c s))
]

-- The text has no character `c`.
abbrev pub Lacks : ℕ → Str → Type 0
Lacks c = All (λ x. x ≢ c)

pub split_of_Lacks : (c : ℕ) (s : Str) → Lacks c s → split c s ≡ s ∷ []
unfolding split
split_of_Lacks c [] h = refl
split_of_Lacks c (x ∷ s) (ne, h) = rw (split_of_Lacks c s h) (ground arith)

pub split-Lacks : (c : ℕ) (s : Str) → All (Lacks c) (split c s)
unfolding split
split-Lacks c [] = (tt, tt)
split-Lacks c (x ∷ s) = go (split c s) (split-Lacks c s)
  where
    go : (r : List Str) → All (Lacks c) r → All (Lacks c) (if x == c then [] ∷ r else push_head x r)
    go [] h = ground arith
    go (p ∷ r) h = ground arith

pub rsplit_once-none : (c : ℕ) (s : Str) → rsplit_once c s ≡ none → Lacks c s
unfolding rsplit_once
rsplit_once-none c [] h = tt
rsplit_once-none c (x ∷ s) h = ground (arith, rsplit_once-none c s)

pub rsplit_once-some :
    (c : ℕ) (s : Str) {b a : Str} → rsplit_once c s ≡ some (b, a) → (s ≡ b ++ c ∷ a) × Lacks c a
unfolding rsplit_once
rsplit_once-some c [] h = absurd (cc)
rsplit_once-some c (x ∷ s) h = elim (Option-cases (rsplit_once c s)) [
  | inl e ↦ ground (arith, rsplit_once-none c s)
  | inr (p, e) ↦ ground (arith, rsplit_once-some c s {b = p.0} {a = p.1})
]

pub trim_end-split :
    (c : ℕ) (s : Str) → (k : ℕ) × (split c s ≡ split c (trim_end (λ x. x == c) s) ++ replicate k [])
unfolding trim_end split
trim_end-split c [] = (0, refl)
trim_end-split c (x ∷ s) = go (trim_end (λ y. y == c) s) (trim_end-split c s)
  where
    go :
        (r : Str)
        → (k : ℕ) × (split c s ≡ split c r ++ replicate k [])
        → (k : ℕ) × (split c (x ∷ s)
            ≡ split c (if is_empty r && x == c then [] else x ∷ r) ++ replicate k [])
    go [] (k, e) = elim (Bool-cases (x == c)) [
      | inl t ↦ (suc k, rw (t, e))
      | inr t ↦ (k, rw (t, t, e))
    ]
    go (y ∷ r) (k, e) = elim (Bool-cases (x == c)) [
      | inl t ↦ (k, rw (t, e))
      | inr t ↦ (k, rw (t, e) (push_head-append x _ _ (split-ne-nil c (y ∷ r))))
    ]

pub filter_nonempty-append :
    (ps qs : List Str) → filter_nonempty (ps ++ qs) ≡ filter_nonempty ps ++ filter_nonempty qs
filter_nonempty-append [] qs = refl
filter_nonempty-append ([] ∷ ps) qs = filter_nonempty-append ps qs
filter_nonempty-append ((x ∷ p) ∷ ps) qs = ap (λ r. (x ∷ p) ∷ r) (filter_nonempty-append ps qs)

filter_nonempty-replicate : (k : ℕ) → filter_nonempty (replicate k []) ≡ []
filter_nonempty-replicate zero = refl
filter_nonempty-replicate (suc k) = filter_nonempty-replicate k

-- The pieces of a text between the separators, without the empty ones.
abbrev pub pieces : ℕ → Str → List Str
pieces c s = filter_nonempty (split c s)

pub pieces-trim_start : (c : ℕ) (s : Str) → pieces c (trim_start (λ x. x == c) s) ≡ pieces c s
unfolding trim_start split
pieces-trim_start c [] = refl
pieces-trim_start c (x ∷ s) = elim (Bool-cases (x == c)) [
  | inl t ↦ rw t (pieces-trim_start c s)
  | inr t ↦ rw (t, t)
]

pub pieces-trim_end : (c : ℕ) (s : Str) → pieces c (trim_end (λ x. x == c) s) ≡ pieces c s
pieces-trim_end c s =
    let (k, e) = trim_end-split c s in
    rw (e, filter_nonempty-append, filter_nonempty-replicate) (sym (append-nil _))

pub pieces-trim_matches : (c : ℕ) (s : Str) → pieces c (trim_matches (λ x. x == c) s) ≡ pieces c s
unfolding trim_matches
pieces-trim_matches c s = pieces-trim_end c (trim_start (λ x. x == c) s) ∙ pieces-trim_start c s

-- The text after the last separator of a trimmed text is not empty.
pub trim_end-last : (c : ℕ) (s b : Str) → trim_end (λ x. x == c) s ≢ b ++ c ∷ []
unfolding trim_end
trim_end-last c [] [] = λ h. cc
trim_end-last c [] (y ∷ b) = λ h. cc
trim_end-last c (x ∷ s) [] = go (trim_end (λ y. y == c) s)
  where
    go : (r : Str) → (if is_empty r && x == c then [] else x ∷ r) ≢ c ∷ []
    go [] = ground arith
    go (y ∷ r) = ground arith
trim_end-last c (x ∷ s) (y ∷ b) = go (trim_end (λ z. z == c) s) (trim_end-last c s b)
  where
    go :
        (r : Str) → r ≢ b ++ c ∷ [] → (if is_empty r && x == c then [] else x ∷ r) ≢ y ∷ b ++ c ∷ []
    go [] h = ground arith
    go (z ∷ r) h = ground arith

pub split-join :
    (c : ℕ) (p : Str) (ps : List Str) → All (Lacks c) (p ∷ ps) → split c (join c (p ∷ ps)) ≡ p ∷ ps
unfolding join
split-join c p [] (h, _) = split_of_Lacks c p h
split-join c p (q ∷ ps) (h, hs) = rw (split-append, split_of_Lacks c p h, split-join c q ps hs)
