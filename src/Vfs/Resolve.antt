-- ===== src/Vfs/Resolve.antt =====
-- The paths that `resolve_path` of src/vfs.rs gives.
use open_kernel.Base.{
  ◌≡◌, ◌≢◌, ◌∙◌, refl, sym, ap, true, false, List, [], ◌∷◌, ◌++◌, append-nil, append_assoc, Str,
  pop, Str_dec, ◌==◌, str_eq, if◌then◌else◌, arith,
}
use open_kernel.Base.Text.{codes, starts_with, split, filter_nonempty}
use open_kernel.Base.Text.Laws.{All, All-append, Lacks, split-Lacks, split-join}
use open_kernel.Vfs.Components.{components, IsName}
use open_kernel.Vfs.Paths.{resolve_segment, resolve_segments, to_path, resolve_path}

-- A part of a normal path: a name that is neither `.` nor `..`.
abbrev pub IsPart : Str → Type 0
IsPart p = IsName p × (p ≢ codes ".") × (p ≢ codes "..")

All-pop : (ps : List Str) → All IsPart ps → All IsPart (pop ps)
All-pop [] h = tt
All-pop (p ∷ []) h = tt
All-pop (p ∷ q ∷ ps) (h, hs) = (h, All-pop (q ∷ ps) hs)

resolve_segment-IsPart :
    (parts : List Str) (s : Str)
    → All IsPart parts
    → Lacks b'/' s
    → All IsPart (resolve_segment parts s)
unfolding resolve_segment
resolve_segment-IsPart parts [] h k = h
resolve_segment-IsPart parts (x ∷ s) h k =
    elim (Str_dec (x ∷ s) (codes "."))
      as (λ d. All IsPart (
        if (elim d [ yes p ↦ true | no n ↦ false ])
        then parts
        else if (x ∷ s) == codes ".."
        then pop parts
        else parts ++ (x ∷ s) ∷ [])) [
          | yes p ↦ h
          | no n ↦
              elim (Str_dec (x ∷ s) (codes ".."))
                as (λ d. All IsPart (
                  if (elim d [ yes p ↦ true | no n ↦ false ])
                  then pop parts
                  else parts ++ (x ∷ s) ∷ [])) [
                    | yes p ↦ All-pop parts h
                    | no m ↦ All-append IsPart parts ((x ∷ s) ∷ []) h ((((λ e. cc e), k), n, m), tt)
                  ]
        ]

resolve_segments-IsPart :
    (parts segments : List Str)
    → All IsPart parts
    → All (Lacks b'/') segments
    → All IsPart (resolve_segments parts segments)
unfolding resolve_segments
resolve_segments-IsPart parts [] h k = h
resolve_segments-IsPart parts (s ∷ rest) h (ks, k) =
    resolve_segments-IsPart (resolve_segment parts s) rest (resolve_segment-IsPart parts s h ks) k

resolve_segment-part :
    (parts : List Str) (p : Str) → IsPart p → resolve_segment parts p ≡ parts ++ p ∷ []
unfolding resolve_segment
resolve_segment-part parts [] ((ne, l), h, k) = absurd (ne refl)
resolve_segment-part parts (x ∷ s) h = ground arith

-- Parts that are normal are kept as they are.
pub resolve_segments-parts :
    (parts ps : List Str) → All IsPart ps → resolve_segments parts ps ≡ parts ++ ps
unfolding resolve_segments
resolve_segments-parts parts [] h = sym (append-nil parts)
resolve_segments-parts parts (p ∷ ps) (h, hs) =
    rw (resolve_segment-part parts p h)
      (resolve_segments-parts (parts ++ p ∷ []) ps hs ∙ append_assoc parts (p ∷ []) ps)

All-Lacks : (ps : List Str) → All IsPart ps → All (Lacks b'/') ps
All-Lacks [] h = tt
All-Lacks (p ∷ ps) (((ne, l), h, k), hs) = (l, All-Lacks ps hs)

filter_nonempty-parts : (ps : List Str) → All IsPart ps → filter_nonempty ps ≡ ps
filter_nonempty-parts [] h = refl
filter_nonempty-parts ([] ∷ ps) (((ne, l), h, k), hs) = absurd (ne refl)
filter_nonempty-parts ((x ∷ p) ∷ ps) (h, hs) = ap (λ r. (x ∷ p) ∷ r) (filter_nonempty-parts ps hs)

-- The path that normal parts make has these components.
pub components-to_path : (ps : List Str) → All IsPart ps → components (to_path ps) ≡ ps
unfolding to_path split
components-to_path [] h = refl
components-to_path (p ∷ ps) h =
    rw (split-join b'/' p ps (All-Lacks (p ∷ ps) h)) (filter_nonempty-parts (p ∷ ps) h)

-- What `resolve_path` leaves of a base and an input.
pub resolved_parts : Str → Str → List Str
resolved_parts current_dir input =
    resolve_segments []
      (split b'/' (if starts_with b'/' input then codes "/" else current_dir) ++ split b'/' input)

pub resolved_parts-IsPart :
    (current_dir input : Str) → All IsPart (resolved_parts current_dir input)
unfolding resolved_parts
resolved_parts-IsPart current_dir input =
    resolve_segments-IsPart [] _ tt
      (All-append (Lacks b'/') _ _ (split-Lacks b'/' _) (split-Lacks b'/' input))

pub resolve_path_lem :
    (current_dir input : Str)
    → resolve_path current_dir input ≡ to_path (resolved_parts current_dir input)
unfolding resolve_path resolved_parts
resolve_path_lem current_dir input = refl

-- A normal path: a slash and normal parts joined by slashes.
abbrev pub IsNormal : Str → Type 0
IsNormal path = (ps : List Str) × (path ≡ to_path ps) × All IsPart ps

-- A resolved path is normal, whatever the input and the current directory: it begins with a slash,
-- and none of its parts is empty, `.` or `..`.
pub resolve_path-IsNormal : (current_dir input : Str) → IsNormal (resolve_path current_dir input)
resolve_path-IsNormal current_dir input = (
  resolved_parts current_dir input,
  resolve_path_lem current_dir input,
  resolved_parts-IsPart current_dir input,
)

-- The components of a resolved path are the parts that the resolution left.
pub components-resolve_path :
    (current_dir input : Str)
    → components (resolve_path current_dir input) ≡ resolved_parts current_dir input
components-resolve_path current_dir input =
    ap components (resolve_path_lem current_dir input)
    ∙ components-to_path (resolved_parts current_dir input)
        (resolved_parts-IsPart current_dir input)

resolved_parts-to_path :
    (current_dir : Str) (ps : List Str)
    → All IsPart ps
    → resolved_parts current_dir (to_path ps) ≡ ps
unfolding resolved_parts to_path starts_with split resolve_segments resolve_segment
resolved_parts-to_path current_dir [] h = refl
resolved_parts-to_path current_dir (p ∷ ps) h =
    rw (split-join b'/' p ps (All-Lacks (p ∷ ps) h)) (resolve_segments-parts [] (p ∷ ps) h)

-- A normal path resolves to itself, whatever the current directory.
pub resolve_path_normal :
    (current_dir path : Str) → IsNormal path → resolve_path current_dir path ≡ path
resolve_path_normal current_dir path (ps, e, h) = rw e (
    resolve_path_lem current_dir (to_path ps)
    ∙ ap to_path (resolved_parts-to_path current_dir ps h))
