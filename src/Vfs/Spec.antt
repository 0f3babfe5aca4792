-- ===== src/Vfs/Spec.antt =====
-- What the file system of src/vfs.rs promises, over paths given as components: three operations on
-- the map from paths to entries.
use open_kernel.Base.{
  ℕ, ◌≡◌, refl, Bool, true, false, not, Option, none, some, List, [], ◌∷◌, Str, if◌then◌else◌,
}
use open_kernel.Vfs.View.{Files, strip}
use open_kernel.Vfs.View.Children.{Entry, bytes, dir, is_some, fits_file}

abbrev pub override : Option (List Str) → Option Entry → Option Entry → Option Entry
override none e old = old
override (some []) e old = e
override (some (x ∷ rest)) e old = none

-- One entry given anew, or taken away. Nothing stands below it afterwards.
abbrev pub update : Files → List Str → Option Entry → Files
update F ps e qs = override (strip ps qs) e (F qs)

-- All but the last component, and the last.
abbrev pub split_last : List Str → Option (List Str × Str)
split_last [] = none
split_last (p ∷ ps) = elim (split_last ps) [
  | none ↦ some ([], p)
  | some (front, last) ↦ some (p ∷ front, last)
]

-- What stands at the parent decides: only a directory has entries to change.
abbrev pub in_parent : Option Entry → Bool → Files → Files → Files × Bool
in_parent (some dir) permitted new old = if permitted then (new, true) else (old, false)
in_parent (some (bytes b)) permitted new old = (old, false)
in_parent none permitted new old = (old, false)

abbrev pub below_last : Option (List Str × Str) → Bool → Files → Files → Files × Bool
below_last none permitted new old = (old, false)
below_last (some (front, last)) permitted new old = in_parent (old front) permitted new old

-- A change of one entry, allowed below a directory where the entry at the path permits it.
abbrev pub change : (Option Entry → Bool) → Option Entry → Files → List Str → Files × Bool
change permits e F path = below_last (split_last path) (permits (F path)) (update F path e) F

-- A change that was made was permitted.
in_parent-done :
    (parent : Option Entry) (permitted : Bool) (new old : Files)
    → (in_parent parent permitted new old).1 ≡ true
    → ((in_parent parent permitted new old).0 ≡ new) × (permitted ≡ true)
in_parent-done (some dir) true new old h = (refl, refl)
in_parent-done (some dir) false new old h = absurd (cc)
in_parent-done (some (bytes b)) permitted new old h = absurd (cc)
in_parent-done none permitted new old h = absurd (cc)

pub change-done :
    (permits : Option Entry → Bool) (e : Option Entry) (F : Files) (path : List Str)
    → (change permits e F path).1 ≡ true
    → ((change permits e F path).0 ≡ update F path e) × (permits (F path) ≡ true)
change-done permits e F path = go (split_last path)
  where
    go :
        (o : Option (List Str × Str))
        → (below_last o (permits (F path)) (update F path e) F).1 ≡ true
        → ((below_last o (permits (F path)) (update F path e) F).0 ≡ update F path e)
          × (permits (F path) ≡ true)
    go none h = absurd (cc)
    go (some (front, last)) h = in_parent-done (F front) (permits (F path)) (update F path e) F h

in_parent-at :
    (parent : Option Entry) (permitted : Bool) (new old : Files) (qs : List Str)
    → new qs ≡ old qs
    → (in_parent parent permitted new old).0 qs ≡ old qs
in_parent-at (some dir) true new old qs h = h
in_parent-at (some dir) false new old qs h = refl
in_parent-at (some (bytes b)) permitted new old qs h = refl
in_parent-at none permitted new old qs h = refl

-- No change touches the root.
pub change-root :
    (permits : Option Entry → Bool) (e : Option Entry) (F : Files) (path : List Str)
    → (change permits e F path).0 [] ≡ F []
change-root permits e F [] = refl
change-root permits e F (p ∷ ps) = go (split_last (p ∷ ps))
  where
    go :
        (o : Option (List Str × Str))
        → (below_last o (permits (F (p ∷ ps))) (update F (p ∷ ps) e) F).0 [] ≡ F []
    go none = refl
    go (some (front, last)) =
        in_parent-at (F front) (permits (F (p ∷ ps))) (update F (p ∷ ps) e) F [] refl

unfoldable pub write_file : Files → List Str → List ℕ → Files × Bool
write_file F path content = change fits_file (some (bytes content)) F path

unfoldable pub mkdir : Files → List Str → Files × Bool
mkdir F path = change (λ old. not (is_some old)) (some dir) F path

unfoldable pub remove : Files → List Str → Files × Bool
remove F path = change is_some none F path

unfoldable pub read_file : Files → List Str → Option (List ℕ)
read_file F path = elim (F path) [ some (bytes b) ↦ some b | some dir ↦ none | none ↦ none ]
