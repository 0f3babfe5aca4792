-- ===== src/Input/Tests.antt =====
-- The input buffer of src/input.rs at concrete keys.
use open_kernel.Base.{[], ◌∷◌}
use open_kernel.Base.Text.{codes}
use open_kernel.Input.{InputBuffer, new, up_arrow}
use open_kernel.Input.Bounds.{IsValid, push, commit, special, apply_all, keys-IsValid}

keys-IsValid_example : IsValid (apply_all new (push b'a' ∷ commit ∷ special up_arrow ∷ commit ∷ []))
keys-IsValid_example = keys-IsValid (push b'a' ∷ commit ∷ special up_arrow ∷ commit ∷ [])

-- A line is typed, and two wait.
abbrev typing : InputBuffer
typing = record new { line = codes "ls"; ready_lines = codes "cd" ∷ codes "pwd" ∷ [] }
