-- ===== src/Shell/Files.antt =====
-- The commands of src/shell.rs on files, one after the other.
use open_kernel.Base.{
  ◌≡◌, ◌∙◌, refl, ap, true, false, Option, none, some, [], ◌∷◌, ◌++◌, Str, Str_dec, ◌>>=◌,
  if◌then◌else◌, ◌==◌, nat_eq, str_eq, str_beq_iff,
}
use open_kernel.Base.Text.{codes, is_empty, trim}
use open_kernel.Base.Text.Laws.{All}
use open_kernel.Base.Utf8.{IsScalar}
use open_kernel.Vfs.Paths.{resolve_path, read_file_string, write_file_string}
use open_kernel.Vfs.Strings.{read_file_string-write_file_string}
use open_kernel.Shell.{Kernel, Machine, println}
use open_kernel.Shell.Words.{
  IsWord, word, IsTrimmed, trim_of_IsTrimmed, trim_word-trimmed, trim-word, split_once-word,
}
use open_kernel.Shell.Lines.{handle_command-word}
use open_kernel.Shell.Commands.{write, cat, find_arm, arms}
use open_kernel.Shell.Handlers.{
  run_command, handle_command, write_args, handle_write, handle_cat, report,
}

write_found : find_arm (codes "write") arms ≡ some write
unfolding find_arm Str_dec
write_found = refl

cat_found : find_arm (codes "cat") arms ≡ some cat
unfolding find_arm Str_dec
cat_found = refl

-- A path without spaces, and a text that is trimmed and not empty.
write_args-word :
    (path text : Str)
    → IsWord path
    → trim text ≡ text
    → write_args (path ++ 32 ∷ text) ≡ (path, text)
unfolding write_args
write_args-word path text h t =
    ap
      (λ (o : Option (Str × Str)). elim o as (λ x. Str × Str) [
        | some (p, rest) ↦ (p, trim rest)
        | none ↦ (path ++ 32 ∷ text, [])
      ])
      (split_once-word path text h)
    ∙ ap (λ (a : Str). (path, a)) t

is_empty-word : (w : Str) → IsWord w → is_empty w ≡ false
is_empty-word [] (h, n) = absurd (n refl)
is_empty-word (c ∷ w) h = refl

-- The state after a `write` that succeeds.
abbrev pub after_write : Kernel → Str → Str → Kernel
after_write k path text =
    println (codes "wrote to file '" ++ path ++ codes "'")
      (record k { vfs = (write_file_string k.vfs path text).0 })

handle_command-write :
    (m : Machine) (k : Kernel) (path text : Str)
    → IsWord path
    → IsTrimmed text
    → (write_file_string k.vfs path text).1 ≡ true
    → handle_command m (codes "write " ++ (path ++ 32 ∷ text)) k ≡ some (after_write k path text)
unfolding run_command handle_write
handle_command-write m k path text hp ht made =
    handle_command-word m (codes "write") (path ++ 32 ∷ text) write k
      (word b'w' (codes "rite") refl) (trim_word-trimmed path text hp ht) write_found
    ∙ ap some (
        ap (write_to k) (write_args-word path text hp (trim_of_IsTrimmed text ht))
        ∙ rw (is_empty-word path hp, made) refl)
  where
    write_to : Kernel → Str × Str → Kernel
    write_to k (p, content) =
        if is_empty p
        then println (codes "usage: write <filename> <text>") k
        else report (write_file_string k.vfs p content) (codes "wrote to file '" ++ p ++ codes "'")
            (codes "write: failed to write file: " ++ p) k

handle_command-cat :
    (m : Machine) (k : Kernel) (path text : Str)
    → IsWord path
    → read_file_string k.vfs path ≡ some text
    → handle_command m (codes "cat " ++ path) k ≡ some (println text k)
unfolding run_command handle_cat
handle_command-cat m k path text hp found =
    handle_command-word m (codes "cat") path cat k (word b'c' (codes "at") refl) (trim-word path hp)
      cat_found
    ∙ ap some (rw (is_empty-word path hp, found) refl)

-- After a `write` that succeeds, to a path without spaces and of a text that is trimmed, `cat` of
-- the path prints the text, and changes nothing else.
pub cat-write :
    (m n : Machine) (k : Kernel) (path text : Str)
    → IsWord path
    → IsTrimmed text
    → All IsScalar text
    → (write_file_string k.vfs path text).1 ≡ true
    → (handle_command m (codes "write " ++ (path ++ 32 ∷ text)) k
        >>= handle_command n (codes "cat " ++ path))
      ≡ some (println text (after_write k path text))
cat-write m n k path text hp ht scalar made =
    ap (λ (o : Option Kernel). o >>= handle_command n (codes "cat " ++ path))
      (handle_command-write m k path text hp ht made)
    ∙ handle_command-cat n (after_write k path text) path text hp
        (read_file_string-write_file_string k.vfs path text path scalar made ∙ same)
  where
    same :
        (if resolve_path k.vfs.current_dir path == resolve_path k.vfs.current_dir path
          then some text
          else read_file_string k.vfs path)
        ≡ some text
    same =
        rw
          ((str_beq_iff (resolve_path k.vfs.current_dir path)
              (resolve_path k.vfs.current_dir path)).1
            refl)
          refl
