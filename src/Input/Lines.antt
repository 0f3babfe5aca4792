-- ===== src/Input/Lines.antt =====
-- From the characters that are typed to the line that the shell takes, in src/input.rs.
use open_kernel.Base.{
  ℕ, zero, suc, ◌-◌, ◌≤◌, ◌<◌, ◌≡◌, ◌∙◌, refl, sym, ap, true, false, some, List, [], ◌∷◌, ◌++◌,
  append-nil, append_assoc, Str, arith, ltb, leb, ltb→lt, lt→ltb, Bool-cases, inl, inr,
  if◌then◌else◌, length, take, drop, pop-append, length-append,
}
use open_kernel.Base.Text.{is_empty}
use open_kernel.Input.{
  InputBuffer, max_line_len, max_queue_depth, push_char, backspace, push_bounded, commit_line,
  pop_line,
}

unfoldable pub type_chars : InputBuffer → Str → InputBuffer
type_chars b [] = b
type_chars b (c ∷ s) = type_chars (push_char b c) s

take-append_full : (n : ℕ) (xs ys : Str) → length xs ≡ n → take n (xs ++ ys) ≡ xs
take-append_full zero [] ys h = refl
take-append_full zero (x ∷ xs) ys h = absurd (omega arith)
take-append_full (suc n) [] ys h = absurd (omega arith)
take-append_full (suc n) (x ∷ xs) ys h = ap (λ r. x ∷ r) (take-append_full n xs ys (omega arith))

take_all : (n : ℕ) (xs : Str) → length xs ≤ n → take n xs ≡ xs
take_all zero [] h = refl
take_all zero (x ∷ xs) h = absurd (omega arith)
take_all (suc n) [] h = refl
take_all (suc n) (x ∷ xs) h = ap (λ r. x ∷ r) (take_all n xs (omega arith))

-- On a line within its limit, typing appends until the line is full, drops the rest, and changes
-- nothing else.
pub type_chars_lem :
    (s : Str) (b : InputBuffer)
    → length b.line ≤ max_line_len
    → type_chars b s ≡ record b { line = take max_line_len (b.line ++ s) }
unfolding type_chars push_char
type_chars_lem [] b h =
    ap (λ l. record b { line = l })
      (sym (ap (take max_line_len) (append-nil b.line) ∙ take_all max_line_len b.line h))
type_chars_lem (c ∷ s) b h = elim (Bool-cases (ltb (length b.line) max_line_len)) [
  | inl e ↦ rw e (
      type_chars_lem s (record b { line = b.line ++ c ∷ [] })
        (omega (arith, length-append b.line (c ∷ []), ltb→lt _ _ e))
      ∙ ap (λ l. record b { line = take max_line_len l }) (append_assoc b.line (c ∷ []) s))
  | inr e ↦
      let full : length b.line ≡ max_line_len = ground arith in
      rw e (
        type_chars_lem s b h
        ∙ ap (λ l. record b { line = l })
            (take-append_full max_line_len b.line s full
              ∙ sym (take-append_full max_line_len b.line (c ∷ s) full)))
]

is_empty-append : (s : Str) (c : ℕ) → is_empty (s ++ c ∷ []) ≡ false
is_empty-append [] c = refl
is_empty-append (x ∷ s) c = refl

-- A backspace takes back the last character that was typed, if there was room for it.
pub backspace-push_char :
    (b : InputBuffer) (c : ℕ) → length b.line < max_line_len → backspace (push_char b c) ≡ (b, true)
unfolding backspace push_char
backspace-push_char b c h =
    rw (lt→ltb (length b.line) max_line_len h) (rw (pop-append b.line c, is_empty-append b.line c))

-- The last lines of a queue, as many as the depth.
abbrev pub last_lines : ℕ → List Str → List Str
last_lines depth lines = drop (length lines - depth) lines

push_bounded_lem :
    (depth : ℕ) (queue : List Str) (line : Str)
    → 0 < depth
    → length queue ≤ depth
    → push_bounded depth queue line ≡ last_lines depth (queue ++ line ∷ [])
push_bounded_lem depth [] line pos h =
    let e : leb depth 0 ≡ false = ground arith in let k : 1 - depth ≡ 0 = omega arith in rw (e, k)
push_bounded_lem depth (x ∷ q) line pos h = elim (Bool-cases (leb depth (suc (length q)))) [
  | inl e ↦
      let k : suc (length (q ++ line ∷ [])) - depth ≡ 1 =
        ground (arith, length-append q (line ∷ [])) in
      rw (e, k)
  | inr e ↦
      let k : suc (length (q ++ line ∷ [])) - depth ≡ 0 =
        ground (arith, length-append q (line ∷ [])) in
      rw (e, k)
]

-- On queues within their bounds, a commit empties the line, and queues it for the shell and,
-- unless it is empty, for the history. Each queue keeps the last lines that fit.
pub commit_line_lem :
    (b : InputBuffer)
    → length b.ready_lines ≤ max_queue_depth
    → length b.history ≤ 16
    → commit_line b ≡ record b {
      line = [];
      ready_lines = last_lines max_queue_depth (b.ready_lines ++ b.line ∷ []);
      history = if is_empty b.line then b.history else last_lines 16 (b.history ++ b.line ∷ []);
    }
unfolding commit_line
commit_line_lem b h k = rw (
  push_bounded_lem max_queue_depth b.ready_lines b.line (omega arith) h,
  push_bounded_lem 16 b.history b.line (omega arith) k,
)

-- With an empty line and no line waiting, the shell takes the line that was typed and committed,
-- cut to the limit.
pub typed_line :
    (b : InputBuffer) (s : Str)
    → b.line ≡ []
    → b.ready_lines ≡ []
    → (pop_line (commit_line (type_chars b s))).1 ≡ some (take max_line_len s)
unfolding pop_line commit_line
typed_line b s empty none_ready =
    let short : length b.line ≤ max_line_len = rw empty (omega arith) in
    rw (type_chars_lem s b short, none_ready, empty)
