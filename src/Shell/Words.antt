-- ===== src/Shell/Words.antt =====
-- Words: texts without spaces, cut from a line and trimmed.
use open_kernel.Base.{
  ℕ, zero, suc, ◌+◌, ◌-◌, ◌/◌, ◌%◌, ◌^◌, ◌≤◌, ◌<◌, ◌≡◌, ◌≢◌, ◌∙◌, refl, sym, ap, Bool, true, false,
  ◌&&◌, some, List, [], ◌∷◌, ◌++◌, append_assoc, append-nil, Str, arith, ltb, leb, ltb→lt, nat_beq,
  Bool-cases, inl, inr, digits, decimal,
}
use open_kernel.Base.Int.{ℤ, pos, negsuc, IsI64, to_string}
use open_kernel.Base.Parse.{
  read_digits, read_number, read_digits-digits, parse_i64, split_by, split_whitespace,
}
use open_kernel.Base.Text.{
  is_whitespace, is_empty, trim, trim_matches, trim_start, trim_end, split_once, filter_nonempty,
}
use open_kernel.Base.Text.Laws.{All, All-append}

-- A character that is neither a space nor a control character.
abbrev pub IsInk : ℕ → Type 0
IsInk c = (33 ≤ c) × (c ≤ 126)

ink_shows : (c : ℕ) → IsInk c → is_whitespace c ≡ false
unfolding is_whitespace
ink_shows c h = ground arith

abbrev pub IsWord : Str → Type 0
IsWord s = All IsInk s × (s ≢ [])

abbrev all_ink : Str → Bool
all_ink [] = true
all_ink (c ∷ s) = leb 33 c && (leb c 126 && all_ink s)

IsInk-of_test : (s : Str) → all_ink s ≡ true → All IsInk s
IsInk-of_test [] h = tt
IsInk-of_test (c ∷ s) h = (ground arith, IsInk-of_test s (ground arith))

-- A literal that is a word.
pub word : (c : ℕ) (s : Str) → all_ink (c ∷ s) ≡ true → IsWord (c ∷ s)
word c s h = (IsInk-of_test (c ∷ s) h, λ p. cc p)

trim_end-ink : (s : Str) → All IsInk s → trim_end is_whitespace s ≡ s
unfolding trim_end
trim_end-ink [] h = refl
trim_end-ink (c ∷ s) (i, h) = rw (trim_end-ink s h, ink_shows c i) (ground arith)

is_empty-append : (s : Str) (d : ℕ) (w : Str) → is_empty (s ++ d ∷ w) ≡ false
is_empty-append [] d w = refl
is_empty-append (c ∷ s) d w = refl

-- A text that is not empty and has no space at either end.
pub record IsTrimmed (s : Str) : Type 0 where
  pub not_empty : s ≢ []
  pub front : trim_start is_whitespace s ≡ s
  pub rear : trim_end is_whitespace s ≡ s

pub trim_of_IsTrimmed : (s : Str) → IsTrimmed s → trim s ≡ s
unfolding trim trim_matches
trim_of_IsTrimmed s h = ap (trim_end is_whitespace) h.front ∙ h.rear

trim_end-append : (r s : Str) → IsTrimmed s → trim_end is_whitespace (r ++ s) ≡ r ++ s
unfolding trim_end
trim_end-append [] s h = h.rear
trim_end-append (c ∷ r) [] h = absurd (h.not_empty refl)
trim_end-append (c ∷ r) (d ∷ s) h = rw (trim_end-append r (d ∷ s) h, is_empty-append r d s) refl

-- A word at the end keeps what is before it.
trim_end-word : (s w : Str) → IsWord w → trim_end is_whitespace (s ++ w) ≡ s ++ w
unfolding trim_end
trim_end-word [] w (h, n) = trim_end-ink w h
trim_end-word (c ∷ s) [] (h, n) = absurd (n refl)
trim_end-word (c ∷ s) (d ∷ w) (h, n) =
    rw (trim_end-word s (d ∷ w) (h, n), is_empty-append s d w) refl

trim_start-word : (w s : Str) → IsWord w → trim_start is_whitespace (w ++ s) ≡ w ++ s
unfolding trim_start
trim_start-word [] s (h, n) = absurd (n refl)
trim_start-word (c ∷ w) s ((i, h), n) = rw (ink_shows c i) refl

-- What starts and ends with a word is trimmed.
pub trim_words : (v s w : Str) → IsWord v → IsWord w → trim (v ++ (s ++ w)) ≡ v ++ (s ++ w)
unfolding trim trim_matches
trim_words v s w hv hw =
    ap (trim_end is_whitespace) (trim_start-word v (s ++ w) hv)
    ∙ ap (trim_end is_whitespace) (sym (append_assoc v s w))
    ∙ trim_end-word (v ++ s) w hw
    ∙ append_assoc v s w

pub trim_word-trimmed : (w s : Str) → IsWord w → IsTrimmed s → trim (w ++ 32 ∷ s) ≡ w ++ 32 ∷ s
unfolding trim trim_matches
trim_word-trimmed w s hw h =
    ap (trim_end is_whitespace) (trim_start-word w (32 ∷ s) hw)
    ∙ ap (trim_end is_whitespace) (sym (append_assoc w (32 ∷ []) s))
    ∙ trim_end-append (w ++ 32 ∷ []) s h
    ∙ append_assoc w (32 ∷ []) s

pub trim-word : (w : Str) → IsWord w → trim w ≡ w
unfolding trim trim_matches
trim-word w h =
    ap (trim_end is_whitespace)
      (ap (trim_start is_whitespace) (sym (append-nil w)) ∙ trim_start-word w [] h ∙ append-nil w)
    ∙ trim_end-ink w h.0

-- The first word of a line.
pub split_once-word : (w s : Str) → IsWord w → split_once 32 (w ++ 32 ∷ s) ≡ some (w, s)
unfolding split_once
split_once-word [] s (h, n) = absurd (n refl)
split_once-word (c ∷ []) s ((i, h), n) = ground arith
split_once-word (c ∷ d ∷ w) s ((i, h), n) =
    let rest = split_once-word (d ∷ w) s (h, λ e. cc e) in ground arith

split_by-ink :
    (w s : Str) → All IsInk w → split_by is_whitespace (w ++ 32 ∷ s) ≡ w ∷ split_by is_whitespace s
unfolding split_by is_whitespace
split_by-ink [] s h = refl
split_by-ink (c ∷ w) s (i, h) = rw (split_by-ink w s h, ink_shows c i) refl

split_by-end : (w : Str) → All IsInk w → split_by is_whitespace w ≡ w ∷ []
unfolding split_by
split_by-end [] h = refl
split_by-end (c ∷ w) (i, h) = rw (split_by-end w h, ink_shows c i) refl

keep_word : (w : Str) (ps : List Str) → IsWord w → filter_nonempty (w ∷ ps) ≡ w ∷ filter_nonempty ps
keep_word [] ps (h, n) = absurd (n refl)
keep_word (c ∷ w) ps h = refl

pub split_whitespace-three :
    (u v w : Str)
    → IsWord u
    → IsWord v
    → IsWord w
    → split_whitespace (u ++ 32 ∷ (v ++ 32 ∷ w)) ≡ u ∷ v ∷ w ∷ []
unfolding split_whitespace
split_whitespace-three u v w hu hv hw =
    ap filter_nonempty (
      split_by-ink u (v ++ 32 ∷ w) hu.0
      ∙ ap (λ ps. u ∷ ps) (split_by-ink v w hv.0 ∙ ap (λ ps. v ∷ ps) (split_by-end w hw.0)))
    ∙ keep_word u (v ∷ w ∷ []) hu
    ∙ ap (λ ps. u ∷ ps) (keep_word v (w ∷ []) hv ∙ ap (λ ps. v ∷ ps) (keep_word w [] hw))

abbrev IsDigit : ℕ → Type 0
IsDigit c = (48 ≤ c) × (c ≤ 57)

append-ne-nil : (s : Str) (c : ℕ) → s ++ c ∷ [] ≢ []
append-ne-nil [] c p = cc p
append-ne-nil (d ∷ s) c p = cc p

-- The printed number is not empty, and has digits only.
abbrev IsNumber : Str → Type 0
IsNumber s = All IsDigit s × (s ≢ [])

digits-IsNumber : (fuel n : ℕ) → n < fuel → IsNumber (digits fuel n)
unfolding digits
digits-IsNumber zero n h = absurd (omega arith)
digits-IsNumber (suc fuel) n h = elim (Bool-cases (ltb n 10)) [
  | inl e ↦ rw e (((omega arith, omega (arith, ltb→lt, e)), tt), λ p. cc p)
  | inr e ↦ rw e (
      let (all, non_empty) = digits-IsNumber fuel (n / 10) (ground arith) in
      (
        All-append IsDigit (digits fuel (n / 10)) ((48 + (n % 10)) ∷ []) all
            ((omega arith, omega arith), tt),
        λ p. append-ne-nil (digits fuel (n / 10)) (48 + (n % 10)) p,
      ))
]

decimal-IsNumber : (n : ℕ) → IsNumber (decimal n)
decimal-IsNumber n = digits-IsNumber (suc n) n (omega arith)

IsInk-of_digits : (s : Str) → All IsDigit s → All IsInk s
IsInk-of_digits [] h = tt
IsInk-of_digits (c ∷ s) (d, h) = ((omega arith, omega arith), IsInk-of_digits s h)

pub to_string-IsWord : (z : ℤ) → IsWord (to_string z)
to_string-IsWord (pos k) =
    let (all, some_digit) = decimal-IsNumber k in (IsInk-of_digits (decimal k) all, some_digit)
to_string-IsWord (negsuc k) =
    let (all, _) = decimal-IsNumber (suc k) in
    (((omega arith, omega arith), IsInk-of_digits (decimal (suc k)) all), λ p. cc p)

read_number-decimal : (n : ℕ) → read_number (decimal n) ≡ some n
read_number-decimal n =
    go (decimal n) (decimal-IsNumber n).1 (read_digits-digits (suc n) n (omega arith))
  where
    go : (s : Str) → s ≢ [] → read_digits 0 s ≡ some n → read_number s ≡ some n
    go [] h e = absurd (h refl)
    go (c ∷ s) h e = e

-- A text that starts with a digit has no sign.
parse_unsigned :
    (s : Str) (k : ℕ)
    → IsNumber s
    → read_number s ≡ some k
    → k < 2 ^ 63
    → parse_i64 s ≡ some (pos k)
unfolding parse_i64
parse_unsigned [] k (h, n) e lt = absurd (n refl)
parse_unsigned (c ∷ s) k (((lo, hi), h), n) e lt =
    let no_minus : nat_beq c 45 ≡ false = ground arith in
    let no_plus : nat_beq c 43 ≡ false = ground arith in
    let small : leb k (2 ^ 63 - 1) ≡ true = ground arith in rw (no_minus, no_plus, e, small) refl

-- A printed i64 parses as itself.
pub parse_i64-to_string : (z : ℤ) → IsI64 z → parse_i64 (to_string z) ≡ some z
unfolding parse_i64
parse_i64-to_string (pos k) h =
    parse_unsigned (decimal k) k (decimal-IsNumber k) (read_number-decimal k) h
parse_i64-to_string (negsuc k) h =
    let small : leb (suc k) (2 ^ 63) ≡ true = ground arith in
    rw (read_number-decimal (suc k), small) refl
