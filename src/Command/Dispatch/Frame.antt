-- ===== src/Command/Dispatch/Frame.antt =====
-- init/command.c: process_command leaves the queue alone, whichever program it runs.
use minlinux.Base.{ℕ, Bool, true, false, List, [], ◌∷◌, ◌++◌, Option, none, some, if◌then◌else◌}
use minlinux.System.{Kernel, World}
use minlinux.System.Wrappers.{Text}
use minlinux.System.Print.{Build}
use minlinux.System.Frame.{Same, unchanged, Kept, goes_on, and_then-Kept, run-Kept}
use minlinux.Command.Scan.{streq}
use minlinux.Command.Frame.{find_in_line-Kept, terminate_in_line-Kept}
use minlinux.Command.Builtins.Frame.{
  cmd_time-Kept, cmd_cat-Kept, cmd_env-Kept, cmd_exit-Kept, cmd_usage-Kept,
}
use minlinux.Command.Listing.Frame.{cmd_ls-Kept}
use minlinux.Command.Spawn.Frame.Programs.{cmd_memrun-Kept, busybox-Kept}
use minlinux.Command.Dispatch.{
  Builtin, time, ls, cat, env, exit, usage, memrun, builtins, call_builtin, try_builtins,
  start_program, process_command,
}

module _ (k : Kernel) (b : Build) (fuel : ℕ) (envp : List Text) where
  call_builtin-Kept :
      (x : Builtin) (next : ℕ) {v w : World}
      → Same v w
      → Kept v (call_builtin k b fuel envp x next w)
  unfolding call_builtin
  call_builtin-Kept time next s = cmd_time-Kept k b s
  call_builtin-Kept ls next s = cmd_ls-Kept k fuel next s
  call_builtin-Kept cat next s = cmd_cat-Kept k b fuel next s
  call_builtin-Kept env next s = cmd_env-Kept k b envp s
  call_builtin-Kept exit next s = cmd_exit-Kept k b s
  call_builtin-Kept usage next s = cmd_usage-Kept k b s
  call_builtin-Kept memrun next s = cmd_memrun-Kept k b next s

  try_builtins-Kept :
      (table : List (Text × Builtin)) (prog next : ℕ) {v w : World}
      → Same v w
      → Kept v (try_builtins k b fuel envp table prog next w)
  unfolding try_builtins
  try_builtins-Kept [] prog next s = busybox-Kept k b prog next s
  try_builtins-Kept ((name, x) ∷ rest) prog next {v} {w} s =
      and_then-Kept (run-Kept (streq w.buffer prog (name ++ (0 ∷ [])) 0) s) (λ same w' s'.
        chosen same w' s' (call_builtin-Kept x next s') (try_builtins-Kept rest prog next s'))
    where
      chosen :
          (same : Bool) (w' : World)
          → Same v w'
          → Kept v (call_builtin k b fuel envp x next w')
          → Kept v (try_builtins k b fuel envp rest prog next w')
          → Kept v (
              (if same
                  then call_builtin k b fuel envp x next
                  else try_builtins k b fuel envp rest prog next)
                w')
      chosen true w' s' found onward = found
      chosen false w' s' found onward = onward

  start_program-Kept :
      (prog : Option ℕ) {v w : World} → Same v w → Kept v (start_program k b fuel envp prog w)
  unfolding start_program
  start_program-Kept none s = goes_on s
  start_program-Kept (some prog) s =
      and_then-Kept (terminate_in_line-Kept s prog)
        (λ next w' s'. try_builtins-Kept builtins prog next s')

  -- process_command changes neither the rings nor the program's counters in the queue, makes no
  -- io_uring_enter call and keeps the size of the console buffer: whatever the line and the
  -- kernel's answers are, and whether it returns or stops; and it stops undefined only if its last
  -- call wrote the place of a failed call, as SYSCHECK does before it reads the text of the error,
  -- which has ended, or powered off.
  pub process_command-Kept : (args : ℕ) (w : World) → Kept w (process_command k b fuel envp args w)
  unfolding process_command
  process_command-Kept args w =
      and_then-Kept (find_in_line-Kept (unchanged w) args)
        (λ prog w' s'. start_program-Kept prog s')
