-- ===== src/Base/Text.antt =====
-- The functions of Rust's `str` that the kernel calls, on lists of characters: `trim_matches`,
-- `split`, `rfind`, `starts_with`, `join`, `trim`.
pub mod Laws
use Prim.Native.Char.{code}
use Prim.Native.String.{String}
use open_kernel.Base.Equality.{Str, ◌==◌, nat_eq}
use open_kernel.Base.Tests.{ltb, leb, if◌then◌else◌}
use Prim.Native.Nat.{ℕ}
use mathlib.Core.Bool.{Bool, true, false, not, ◌||◌, ◌&&◌}
use mathlib.Core.Option.{Option, none, some}
use mathlib.Core.List.{List, [], ◌∷◌, ◌++◌, filter}

-- The characters of a literal.
abbrev pub codes : String → Str
codes String.[] = []
codes (String.◌∷◌ c s) = code c ∷ codes s

abbrev pub is_empty {ℓ} : {A : Type ℓ} → List A → Bool
is_empty [] = true
is_empty (x ∷ xs) = false

-- `str::trim_start_matches` and `str::trim_end_matches`, for a test of one character.
unfoldable pub trim_start : (ℕ → Bool) → Str → Str
trim_start p [] = []
trim_start p (x ∷ s) = let rest = trim_start p s in if p x then rest else x ∷ s

unfoldable pub trim_end : (ℕ → Bool) → Str → Str
trim_end p [] = []
trim_end p (x ∷ s) = let rest = trim_end p s in if is_empty rest && p x then [] else x ∷ rest

unfoldable pub trim_matches : (ℕ → Bool) → Str → Str
unfolding trim_start trim_end
trim_matches p s = trim_end p (trim_start p s)

-- `char::is_whitespace`
unfoldable pub is_whitespace : ℕ → Bool
is_whitespace c =
    (leb 9 c && leb c 13)
    || c == 32
    || c == 0x85
    || c == 0xA0
    || c == 0x1680
    || (leb 0x2000 c && leb c 0x200A)
    || c == 0x2028
    || c == 0x2029
    || c == 0x202F
    || c == 0x205F
    || c == 0x3000

-- `str::trim`
unfoldable pub trim : Str → Str
unfolding trim_matches is_whitespace
trim s = trim_matches is_whitespace s

abbrev pub push_head {ℓ} : {A : Type ℓ} → A → List (List A) → List (List A)
push_head x [] = (x ∷ []) ∷ []
push_head x (p ∷ ps) = (x ∷ p) ∷ ps

-- `str::split` at a character: at least one piece, pieces may be empty.
unfoldable pub split : ℕ → Str → List Str
split c [] = [] ∷ []
split c (x ∷ s) = let rest = split c s in if x == c then [] ∷ rest else push_head x rest

-- `match s.rfind(c) { Some(idx) => (&s[..idx], &s[idx + 1..]), … }`
unfoldable pub rsplit_once : ℕ → Str → Option (Str × Str)
rsplit_once c [] = none
rsplit_once c (x ∷ s) = elim (rsplit_once c s) [
  | some (before, after) ↦ some (x ∷ before, after)
  | none ↦ if x == c then some ([], s) else none
]

-- `match s.find(c) { Some(idx) => (&s[..idx], &s[idx + 1..]), … }`
unfoldable pub split_once : ℕ → Str → Option (Str × Str)
split_once c [] = none
split_once c (x ∷ s) =
    let rest = split_once c s in
    if x == c
    then some ([], s)
    else elim rest [ some (before, after) ↦ some (x ∷ before, after) | none ↦ none ]

unfoldable pub starts_with : ℕ → Str → Bool
starts_with c [] = false
starts_with c (x ∷ s) = x == c

unfoldable pub ends_with : ℕ → Str → Bool
ends_with c [] = false
ends_with c (x ∷ []) = x == c
ends_with c (x ∷ y ∷ s) = ends_with c (y ∷ s)

-- `[String]::join` with a one-character separator.
unfoldable pub join : ℕ → List Str → Str
join c [] = []
join c (p ∷ []) = p
join c (p ∷ q ∷ ps) = p ++ c ∷ join c (q ∷ ps)

abbrev pub filter_nonempty : List Str → List Str
filter_nonempty [] = []
filter_nonempty (p ∷ ps) = let rest = filter_nonempty ps in if is_empty p then rest else p ∷ rest
