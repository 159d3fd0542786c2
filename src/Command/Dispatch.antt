-- ===== src/Command/Dispatch.antt =====
-- init/command.c: the table of built-in commands and process_command.
pub mod Laws
pub mod Frame
pub mod Orderly
pub mod Overflow
mod Tests
pub mod Child
use minlinux.Base.{
  ℕ, Bool, true, false, Option, none, some, List, [], ◌∷◌, ◌++◌, if◌then◌else◌, codes,
}
use minlinux.Memory.{Memory}
use minlinux.System.{Kernel, World, Program, Unit0, run, gets, ◌>>=◌, ◌>>◌, skip}
use minlinux.System.Wrappers.{Text}
use minlinux.System.Print.{Build}
use minlinux.Command.Scan.{streq}
use minlinux.Command.Builtins.{
  find_in_line, terminate_in_line, cmd_time, cmd_cat, cmd_env, cmd_exit, cmd_usage,
}
use minlinux.Command.Listing.{cmd_ls}
use minlinux.Command.Spawn.{cmd_memrun, busybox}

pub data Builtin : Type 0 where
  time ls cat env exit usage memrun : Builtin

-- `builtins[]`
abbrev pub builtins : List (Text × Builtin)
builtins =
    (codes "time", time)
    ∷ (codes "ls", ls)
    ∷ (codes "cat", cat)
    ∷ (codes "env", env)
    ∷ (codes "exit", exit)
    ∷ (codes "usage", usage)
    ∷ (codes "memrun", memrun)
    ∷ []

module _ (k : Kernel) (b : Build) (fuel : ℕ) (envp : List Text) where
  -- `builtins[i].func(uring, argc, argv, envp, next)`
  pub call_builtin : Builtin → ℕ → Program Unit0
  call_builtin time next = cmd_time k b
  call_builtin ls next = cmd_ls k fuel next
  call_builtin cat next = cmd_cat k b fuel next
  call_builtin env next = cmd_env k b envp
  call_builtin exit next = cmd_exit k b
  call_builtin usage next = cmd_usage k b
  call_builtin memrun next = cmd_memrun k b next

  -- The `for` loop over the table and what follows it.
  pub try_builtins : List (Text × Builtin) → ℕ → ℕ → Program Unit0
  try_builtins [] prog next = busybox k b prog next
  try_builtins ((name, builtin) ∷ rest) prog next = do
    line ← gets (λ w. w.buffer)
    same ← run (streq line prog (name ++ (0 ∷ [])) 0)
    if same then call_builtin builtin next else try_builtins rest prog next

  start_program : Option ℕ → Program Unit0
  unfolding try_builtins
  start_program none = skip
  start_program (some prog) = do next ← terminate_in_line prog; try_builtins builtins prog next

  pub process_command : ℕ → Program Unit0
  unfolding start_program
  process_command args = do prog ← find_in_line args; start_program prog
