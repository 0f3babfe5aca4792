-- ===== src/Shell/Calc.antt =====
-- The command `calc` of src/shell.rs, on printed numbers.
use open_kernel.Base.{
  ◌≡◌, ◌∙◌, refl, sym, ap, Option, none, some, [], ◌∷◌, ◌++◌, append_assoc, Str, Str_dec, ◌>>=◌,
  ◌⊎◌, inl, inr, str_eq,
}
use open_kernel.Base.Text.{codes, trim}
use open_kernel.Base.Int.{ℤ, IsI64, to_string}
use open_kernel.Shell.{Kernel, Machine, println}
use open_kernel.Shell.Compute.{Computes, HasNoValue, compute_lem}
use open_kernel.Shell.Words.{
  IsWord, word, trim_words, split_whitespace-three, to_string-IsWord, parse_i64-to_string,
}
use open_kernel.Shell.Lines.{handle_command-word}
use open_kernel.Shell.Commands.{calc, find_arm, arms}
use open_kernel.Shell.Handlers.{run_command, handle_command, calc_line, calc_parts, calc_numbers}

-- The arguments as they are typed.
abbrev pub expression : ℤ → Str → ℤ → Str
expression x op y = to_string x ++ 32 ∷ (op ++ 32 ∷ to_string y)

calc_line-expression :
    (x y : ℤ) (op : Str)
    → IsI64 x
    → IsI64 y
    → IsWord op
    → calc_line (expression x op y) ≡ calc_numbers (some x) op (some y)
unfolding calc_line calc_parts
calc_line-expression x y op hx hy ho =
    ap calc_parts (
      split_whitespace-three (to_string x) op (to_string y) (to_string-IsWord x) ho
        (to_string-IsWord y))
    ∙ rw (parse_i64-to_string x hx, parse_i64-to_string y hy) refl

expression-trimmed : (x y : ℤ) (op : Str) → trim (expression x op y) ≡ expression x op y
expression-trimmed x y op =
    ap trim (again)
    ∙ trim_words (to_string x) (32 ∷ (op ++ 32 ∷ [])) (to_string y) (to_string-IsWord x)
        (to_string-IsWord y)
    ∙ sym again
  where
    again : expression x op y ≡ to_string x ++ ((32 ∷ (op ++ 32 ∷ [])) ++ to_string y)
    again = ap (λ r. to_string x ++ 32 ∷ r) (sym (append_assoc op (32 ∷ []) (to_string y)))

calc_found : find_arm (codes "calc") arms ≡ some calc
unfolding find_arm Str_dec
calc_found = refl

-- What `calc` prints for a value.
abbrev pub answer : ℤ → Str → ℤ → ℤ → Str
answer x op y val =
    to_string x ++ codes " " ++ op ++ codes " " ++ to_string y ++ codes " = " ++ to_string val

-- What becomes of a line, by the exact value of the expression.
abbrev pub Calculated : ℤ → Str → ℤ → Kernel → Option Kernel → Type 0
Calculated x op y k result =
    ((z : ℤ) × (w : ℤ) × Computes op x y z w
      × IsI64 w
      × (result ≡ some (println (answer x op y z) k)))
    ⊎ ((z : ℤ) × (w : ℤ) × Computes op x y z w × (¬ IsI64 w) × (result ≡ none))
    ⊎ (HasNoValue op y
        × (result ≡ some (println (codes "calc error: invalid operator or division by zero") k)))

calc_line-run :
    (m : Machine) (x y : ℤ) (op : Str) (k : Kernel)
    → IsI64 x
    → IsI64 y
    → IsWord op
    → handle_command m (codes "calc " ++ expression x op y) k
      ≡ (calc_numbers (some x) op (some y) >>= λ line. some (println line k))
unfolding run_command
calc_line-run m x y op k hx hy ho =
    handle_command-word m (codes "calc") (expression x op y) calc k (word b'c' (codes "alc") refl)
      (expression-trimmed x y op) calc_found
    ∙ ap (λ (o : Option Str). o >>= λ line. some (println line k))
        (calc_line-expression x y op hx hy ho)

-- `calc` on two printed i64 numbers x and y and an operator without spaces prints the numbers, the
-- operator and the value z where z is the sum, the difference, the product, the quotient or the
-- remainder of x and y that the operator names and z (for `%` the quotient) is an i64. It panics
-- where that number is no i64, and prints an error where the operator is none of the five or divides
-- by 0.
pub handle_command-calc :
    (m : Machine) (x y : ℤ) (op : Str) (k : Kernel)
    → IsI64 x
    → IsI64 y
    → IsWord op
    → Calculated x op y k (handle_command m (codes "calc " ++ expression x op y) k)
unfolding calc_numbers
handle_command-calc m x y op k hx hy ho =
    rw (calc_line-run m x y op k hx hy ho) (elim (compute_lem op x y) [
      | inl (z, w, c, i, r) ↦ inl (z, w, c, i, rw r refl)
      | inr (inl (z, w, c, i, r)) ↦ inr (inl (z, w, c, i, rw r refl))
      | inr (inr (h, r)) ↦ inr (inr (h, rw r refl))
    ])
