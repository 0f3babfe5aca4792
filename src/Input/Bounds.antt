-- ===== src/Input/Bounds.antt =====
-- The bounds of the line and the queues of src/input.rs.
use open_kernel.Base.{
  ℕ, ◌≤◌, ◌<◌, ◌≡◌, Bool, true, false, Option, none, some, List, [], ◌∷◌, Str, arith, ltb, leb,
  ltb→lt, Bool-cases, Option-cases, inl, inr, if◌then◌else◌, length, pop_front, length-append,
  length-pop, length-pop_front, of_some,
}
use open_kernel.Base.Text.{is_empty}
use open_kernel.Base.Text.Laws.{All, All-append}
use open_kernel.Input.{
  InputBuffer, SpecialKey, up_arrow, escape, max_line_len, max_queue_depth, push_char, backspace,
  handle_special_key, set_modifier, push_bounded, commit_line, pop_line, back, new,
}

abbrev pub Fits : Str → Type 0
Fits line = length line ≤ max_line_len

-- No line is longer than the limit, and no queue deeper than its depth.
pub record IsValid (b : InputBuffer) : Type 0 where
  pub line_fits : Fits b.line
  pub ready_fit : All Fits b.ready_lines
  pub history_fit : All Fits b.history
  pub queue_depth : length b.ready_lines ≤ max_queue_depth
  pub history_depth : length b.history ≤ 16

All-pop_front : (xs : List Str) → All Fits xs → All Fits (pop_front xs)
All-pop_front [] h = tt
All-pop_front (x ∷ xs) (hx, h) = h

push_bounded-Fits :
    (depth : ℕ) (xs : List Str) (line : Str)
    → All Fits xs
    → Fits line
    → All Fits (push_bounded depth xs line)
push_bounded-Fits depth xs line h k =
    All-append Fits (if leb depth (length xs) then pop_front xs else xs) (line ∷ [])
      (go (leb depth (length xs))) (k, tt)
  where
    go : (b : Bool) → All Fits (if b then pop_front xs else xs)
    go true = All-pop_front xs h
    go false = h

push_bounded-depth :
    (depth : ℕ) (xs : List Str) (line : Str)
    → 0 < depth
    → length xs ≤ depth
    → length (push_bounded depth xs line) ≤ depth
push_bounded-depth depth xs line pos h = elim (Bool-cases (leb depth (length xs))) [
  | inl e ↦ rw e (omega (arith, length-append (pop_front xs) (line ∷ []), length-pop_front xs))
  | inr e ↦ rw e (omega (arith, length-append xs (line ∷ []), leb-false depth (length xs) e))
]
  where
    leb-false : (a b : ℕ) → leb a b ≡ false → b < a
    leb-false a b e = ground arith

back-Fits : (xs : List Str) {line : Str} → All Fits xs → back xs ≡ some line → Fits line
back-Fits [] h e = absurd (cc)
back-Fits (x ∷ []) (hx, h) e = of_some Fits e hx
back-Fits (x ∷ y ∷ xs) (hx, h) e = back-Fits (y ∷ xs) h e

-- What the keyboard, the serial port and the shell do to the buffer.
pub data Op : Type 0 where
  push : ℕ → Op
  erase commit take_line : Op
  special : SpecialKey → Op
  modify : Str → Bool → Op

abbrev pub apply : InputBuffer → Op → InputBuffer
apply b (push ch) = push_char b ch
apply b erase = (backspace b).0
apply b commit = commit_line b
apply b take_line = (pop_line b).0
apply b (special key) = handle_special_key b key
apply b (modify kind state) = set_modifier b kind state

abbrev pub apply_all : InputBuffer → List Op → InputBuffer
apply_all b [] = b
apply_all b (op ∷ ops) = apply_all (apply b op) ops

push_char-IsValid : (b : InputBuffer) (ch : ℕ) → IsValid b → IsValid (push_char b ch)
unfolding push_char
push_char-IsValid b ch v = elim (Bool-cases (ltb (length b.line) max_line_len)) [
  | inl e ↦ rw e (record {
    line_fits = omega (arith, ltb→lt, e, length-append b.line (ch ∷ []));
    ready_fit = v.ready_fit;
    history_fit = v.history_fit;
    queue_depth = v.queue_depth;
    history_depth = v.history_depth;
  })
  | inr e ↦ rw e v
]

set_modifier_keeps :
    (b : InputBuffer) (kind : Str) (state : Bool)
    → ((set_modifier b kind state).line ≡ b.line)
      × ((set_modifier b kind state).ready_lines ≡ b.ready_lines)
      × ((set_modifier b kind state).history ≡ b.history)
unfolding set_modifier
set_modifier_keeps b kind state = (ground arith, ground arith, ground arith)

set_modifier-IsValid :
    (b : InputBuffer) (kind : Str) (state : Bool) → IsValid b → IsValid (set_modifier b kind state)
set_modifier-IsValid b kind state v =
    let (line, ready, history) = set_modifier_keeps b kind state in
    record {
      line_fits = rw line (v.line_fits);
      ready_fit = rw ready (v.ready_fit);
      history_fit = rw history (v.history_fit);
      queue_depth = rw ready (v.queue_depth);
      history_depth = rw history (v.history_depth);
    }

commit_line-IsValid : (b : InputBuffer) → IsValid b → IsValid (commit_line b)
unfolding commit_line
commit_line-IsValid b v = record {
  line_fits = omega arith;
  ready_fit = push_bounded-Fits max_queue_depth b.ready_lines b.line v.ready_fit v.line_fits;
  history_fit = go_fit (is_empty b.line);
  queue_depth = push_bounded-depth max_queue_depth b.ready_lines b.line (omega arith) v.queue_depth;
  history_depth = go_depth (is_empty b.line);
}
  where
    go_fit : (e : Bool) → All Fits (if e then b.history else push_bounded 16 b.history b.line)
    go_fit true = v.history_fit
    go_fit false = push_bounded-Fits 16 b.history b.line v.history_fit v.line_fits

    go_depth : (e : Bool) → length (if e then b.history else push_bounded 16 b.history b.line) ≤ 16
    go_depth true = v.history_depth
    go_depth false = push_bounded-depth 16 b.history b.line (omega arith) v.history_depth

pop_line-IsValid : (b : InputBuffer) → IsValid b → IsValid (pop_line b).0
unfolding pop_line
pop_line-IsValid b v = go b.ready_lines v.ready_fit v.queue_depth
  where
    go :
        (ready : List Str)
        → All Fits ready
        → length ready ≤ max_queue_depth
        → IsValid
            (elim ready as (λ r. InputBuffer × Option Str) [
              | [] ↦ (b, none)
              | line ∷ rest ↦ (record b { ready_lines = rest }, some line)
            ]).0
    go [] h d = v
    go (line ∷ rest) (hl, h) d = record {
      line_fits = v.line_fits;
      ready_fit = h;
      history_fit = v.history_fit;
      queue_depth = omega arith;
      history_depth = v.history_depth;
    }

handle_special_key-IsValid :
    (b : InputBuffer) (key : SpecialKey) → IsValid b → IsValid (handle_special_key b key)
unfolding handle_special_key
handle_special_key-IsValid b up_arrow v = elim (Option-cases (back b.history)) [
  | inl e ↦ rw (e, handle_special_key) v
  | inr (line, e) ↦
      rw (e, handle_special_key)
        (record {
          line_fits = back-Fits b.history v.history_fit e;
          ready_fit = v.ready_fit;
          history_fit = v.history_fit;
          queue_depth = v.queue_depth;
          history_depth = v.history_depth;
        })
]
handle_special_key-IsValid b escape v = record {
  line_fits = omega arith;
  ready_fit = v.ready_fit;
  history_fit = v.history_fit;
  queue_depth = v.queue_depth;
  history_depth = v.history_depth;
}
handle_special_key-IsValid b _ v = v

pub apply-IsValid : (b : InputBuffer) (op : Op) → IsValid b → IsValid (apply b op)
unfolding backspace
apply-IsValid b (push ch) v = push_char-IsValid b ch v
apply-IsValid b erase v = record {
  line_fits = omega (arith, v.line_fits, length-pop b.line);
  ready_fit = v.ready_fit;
  history_fit = v.history_fit;
  queue_depth = v.queue_depth;
  history_depth = v.history_depth;
}
apply-IsValid b commit v = commit_line-IsValid b v
apply-IsValid b take_line v = pop_line-IsValid b v
apply-IsValid b (special key) v = handle_special_key-IsValid b key v
apply-IsValid b (modify kind state) v = set_modifier-IsValid b kind state v

apply_all-IsValid : (ops : List Op) (b : InputBuffer) → IsValid b → IsValid (apply_all b ops)
apply_all-IsValid [] b v = v
apply_all-IsValid (op ∷ ops) b v = apply_all-IsValid ops (apply b op) (apply-IsValid b op v)

-- After any sequence of operations the line and every queued line have at most 128 characters, at
-- most 8 lines wait, and the history holds at most 16.
pub keys-IsValid : (ops : List Op) → IsValid (apply_all new ops)
keys-IsValid ops = apply_all-IsValid ops new (record {
  line_fits = omega arith;
  ready_fit = tt;
  history_fit = tt;
  queue_depth = omega arith;
  history_depth = omega arith;
})
