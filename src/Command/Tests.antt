-- ===== src/Command/Tests.antt =====
-- init/command.c on concrete lines: tests, and the theorems at inputs that meet their hypotheses.
use minlinux.Base.{
  ℕ, ◌≡◌, ◌↔◌, refl, Bool, true, false, some, none, List, [], ◌∷◌, ◌++◌, arith, codes,
}
use minlinux.Memory.{Memory, ok, fault}
use minlinux.Memory.Text.{HasText}
use minlinux.Command.Scan.{find_arg, terminate_arg, streq}
use minlinux.Command.Scan.Laws.{Finds, find_arg-Finds, Cuts, terminate_arg-Cuts, streq_lem}
use minlinux.Command.Words.{words}
use minlinux.Command.Args.{Vector, fill_args}
use minlinux.Command.Args.Limits.{Closes, fill_args-Closes, fill_args_overflow}

abbrev text : List ℕ
text = codes "ls -a  /"

abbrev line : Memory
line = text ++ (0 ∷ [])

line_text : HasText line 0 text
line_text = ground arith

split_in_words : words (codes "  ls\t -a /") ≡ codes "ls" ∷ codes "-a" ∷ codes "/" ∷ []
split_in_words = refl

scans :
    (find_arg line 2 ≡ ok (some 3))
    × (find_arg line 8 ≡ ok none)
    × (terminate_arg line 0 ≡ ok (codes "ls" ++ (0 ∷ (codes "-a  /" ++ (0 ∷ []))), 3))
unfolding find_arg terminate_arg
scans = (refl, refl, refl)

find_arg-Finds_example : Finds line 0 text (find_arg line 0)
find_arg-Finds_example = find_arg-Finds line 0 text line_text

terminate_arg-Cuts_example : Cuts line 0 text (terminate_arg line 0)
terminate_arg-Cuts_example = terminate_arg-Cuts line 0 text line_text

abbrev name : Memory
name = codes "ls" ++ (0 ∷ [])

name_text : HasText name 0 (codes "ls")
name_text = ground arith

streq_lem_example : (b : Bool) × (streq name 0 line 0 ≡ ok b) × ((b ≡ true) ↔ (codes "ls" ≡ text))
streq_lem_example = streq_lem name 0 line 0 (codes "ls") text name_text line_text

-- The array of a limit of four arguments, with the program's name in its first cell.
abbrev cells : Vector
cells = some 99 ∷ none ∷ none ∷ none ∷ []

fills :
    fill_args 4 3 1 cells (some 3) line
    ≡ ok (
      false,
      record {
        count = 2;
        args = some 99 ∷ some 3 ∷ some 7 ∷ none ∷ [];
        line = codes "ls -a" ++ (0 ∷ codes " /" ++ (0 ∷ []));
      },
    )
unfolding fill_args terminate_arg find_arg
fills = refl

fill_args-Closes_example :
    Closes 1 cells 3 line (codes "-a" ∷ codes "/" ∷ []) (fill_args 4 3 1 cells (some 3) line)
fill_args-Closes_example =
    fill_args-Closes 4 3 1 cells 3 line (codes "-a  /") refl refl (ground arith) (omega arith)

fill_args_overflow_example : fill_args 4 3 1 cells (some 0) line ≡ fault
fill_args_overflow_example =
    fill_args_overflow 4 3 1 cells 0 line text (omega arith) refl refl line_text (omega arith)
