-- ===== src/Shell/Lines.antt =====
-- A line of the shell of src/shell.rs that is the name of a command, a space and its arguments.
use open_kernel.Base.{◌≡◌, ap, ◌∙◌, Option, some, none, [], ◌∷◌, ◌++◌, Str, nat_eq, str_eq}
use open_kernel.Base.Text.{trim}
use open_kernel.Shell.{Kernel, Machine, println}
use open_kernel.Shell.Words.{IsWord, split_once-word}
use open_kernel.Shell.Commands.{Command, find_arm, arms, split_command}
use open_kernel.Shell.Handlers.{run_command, handle_command}
use open_kernel.Base.Text.{codes}

pub split_command-word : (w s : Str) → IsWord w → trim s ≡ s → split_command (w ++ 32 ∷ s) ≡ (w, s)
unfolding split_command
split_command-word w s h t =
    ap
      (λ (o : Option (Str × Str)). elim o as (λ x. Str × Str) [
        | some (name, rest) ↦ (name, trim rest)
        | none ↦ (w ++ 32 ∷ s, [])
      ])
      (split_once-word w s h)
    ∙ ap (λ (a : Str). (w, a)) t

-- The command runs on its trimmed arguments.
pub handle_command-word :
    (m : Machine) (w s : Str) (c : Command) (k : Kernel)
    → IsWord w
    → trim s ≡ s
    → find_arm w arms ≡ some c
    → handle_command m (w ++ 32 ∷ s) k ≡ run_command m c s k
unfolding handle_command
handle_command-word m w s c k h t found =
    ap (dispatch m k) (split_command-word w s h t)
    ∙ ap
        (λ (o : Option Command). elim o as (λ x. Option Kernel) [
          | some command ↦ run_command m command s k
          | none ↦ some (println (codes "unknown command: " ++ w) k)
        ])
        found
  where
    dispatch : Machine → Kernel → Str × Str → Option Kernel
    dispatch m k (name, args) = elim (find_arm name arms) [
      | some command ↦ run_command m command args k
      | none ↦ some (println (codes "unknown command: " ++ name) k)
    ]
