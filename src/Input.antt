-- ===== src/Input.antt =====
-- src/input.rs: the line that is typed, the lines that wait for the shell, the history, and the
-- modifiers. The front of a queue is the head of its list.
pub mod Bounds
pub mod Lines
mod Tests
use open_kernel.Base.{
  ℕ, Bool, true, false, not, Option, none, some, List, [], ◌∷◌, ◌++◌, Str, ltb, leb, if◌then◌else◌,
  ◌==◌, str_eq, length, pop, pop_front,
}
use open_kernel.Base.Text.{codes, is_empty}

abbrev pub max_line_len : ℕ
max_line_len = 128

abbrev pub max_queue_depth : ℕ
max_queue_depth = 8

pub record KeyboardModifiers : Type 0 where
  pub shift : Bool
  pub ctrl : Bool
  pub alt : Bool
  pub caps_lock : Bool

pub data SpecialKey : Type 0 where
  up_arrow down_arrow left_arrow right_arrow home end escape : SpecialKey
  function_key : ℕ → SpecialKey

pub record InputBuffer : Type 0 where
  pub line : Str
  pub ready_lines : List Str
  pub history : List Str
  pub modifiers : KeyboardModifiers

abbrev pub new : InputBuffer
new = record {
  line = [];
  ready_lines = [];
  history = [];
  modifiers = record { shift = false; ctrl = false; alt = false; caps_lock = false };
}

unfoldable pub push_char : InputBuffer → ℕ → InputBuffer
push_char b ch =
    if ltb (length b.line) max_line_len then record b { line = b.line ++ ch ∷ [] } else b

unfoldable pub backspace : InputBuffer → InputBuffer × Bool
backspace b = (record b { line = pop b.line }, not (is_empty b.line))

-- `VecDeque::back`
abbrev pub back : List Str → Option Str
back [] = none
back (x ∷ []) = some x
back (x ∷ y ∷ xs) = back (y ∷ xs)

unfoldable pub handle_special_key : InputBuffer → SpecialKey → InputBuffer
handle_special_key b up_arrow = elim (back b.history) [
  | none ↦ b
  | some prev ↦ record b { line = prev }
]
handle_special_key b escape = record b { line = [] }
handle_special_key b _ = b

unfoldable pub set_modifier : InputBuffer → Str → Bool → InputBuffer
set_modifier b mod_type state =
    if mod_type == codes "shift"
    then record b { modifiers = record (b.modifiers) { shift = state } }
    else if mod_type == codes "ctrl"
    then record b { modifiers = record (b.modifiers) { ctrl = state } }
    else if mod_type == codes "alt"
    then record b { modifiers = record (b.modifiers) { alt = state } }
    else if mod_type == codes "caps"
    then record b { modifiers = record (b.modifiers) { caps_lock = state } }
    else b

-- A queue of at most `depth` lines: the oldest goes where there is no room.
abbrev pub push_bounded : ℕ → List Str → Str → List Str
push_bounded depth queue line =
    (if leb depth (length queue) then pop_front queue else queue) ++ line ∷ []

unfoldable pub commit_line : InputBuffer → InputBuffer
commit_line b = record b {
  line = [];
  ready_lines = push_bounded max_queue_depth b.ready_lines b.line;
  history = if is_empty b.line then b.history else push_bounded 16 b.history b.line;
}

unfoldable pub pop_line : InputBuffer → InputBuffer × Option Str
pop_line b = elim b.ready_lines [
  | [] ↦ (b, none)
  | line ∷ rest ↦ (record b { ready_lines = rest }, some line)
]

abbrev pub current_line : InputBuffer → Str
current_line b = b.line
