-- ===== src/Command/Builtins.antt =====
-- init/command.c: the built-in commands other than ls and memrun.
pub mod Copy
pub mod Usage
pub mod Frame
pub mod Orderly
mod Tests
use minlinux.Base.{
  ℕ, zero, suc, ◌+◌, ◌-◌, ◌*◌, ◌%◌, ◌^◌, Option, none, some, List, [], ◌∷◌, ◌++◌, take, drop,
  get_elem?, codes,
}
use minlinux.Base.Int.{ℤ, pos, negsuc, to_u64}
use minlinux.System.{
  Kernel, Program, Unit0, no_fuel, stop, syscall, syscall_bytes, syscall_fields, run, gets, modify,
  ◌>>=◌, ◌>>◌, skip, pure,
}
use minlinux.System.Abi.{Constant}
use minlinux.System.Wrappers
use minlinux.System.Wrappers.{Text}
use minlinux.System.Print.{Build, stdout, write_str, write_int, write_err, syscheck, after_reboot}
use minlinux.Util.Text.{strlen}
use minlinux.Command.Scan.{find_arg, terminate_arg}

-- `find_arg(str)` on the console line.
abbrev pub find_in_line : ℕ → Program (Option ℕ)
find_in_line str = do line ← gets (λ w. w.buffer); run (find_arg line str)

-- `terminate_arg(str)` on the console line: it marks the end in place.
abbrev pub terminate_in_line : ℕ → Program ℕ
terminate_in_line str = do
  line ← gets (λ w. w.buffer)
  (line', next) ← run (terminate_arg line str)
  modify (λ w. record w { buffer = line' })
  pure next

-- The string at a place of the console line, as a call reads it.
abbrev pub text_at : ℕ → Program Text
text_at str = do
  line ← gets (λ w. w.buffer)
  n ← run (strlen line str)
  pure (take n (drop str line))

-- A field of a struct that the kernel filled in, by its number.
abbrev pub field : ℕ → List ℤ → ℤ
field i xs = elim (get_elem? xs i) [ none ↦ pos 0 | some v ↦ v ]

module _ (k : Kernel) (b : Build) where
  abbrev place : Text → Text
  place line = b.command_c ++ line

  -- The fields are `tv_sec` and `tv_nsec`.
  pub cmd_time : Program Unit0
  cmd_time = do
    (res, time) ← syscall_fields k (Wrappers.clock_gettime Constant.clock_realtime)
    syscheck k (place (codes ":67")) res
    write_str k (codes "Current Time: ")
    write_int k (to_u64 (field 0 time))
    write_str k (codes " sec ")
    write_int k (to_u64 (field 1 time))
    write_str k (codes " nsec\n")

  report_write : ℤ → Program Unit0
  report_write (pos n) = skip
  report_write (negsuc n) = write_err k (codes "Error writing to stdout") (negsuc n)

  -- `while ((result = read(fd, buffer, sizeof buffer)) > 0) …`; the value is the last result. How
  -- many reads there are is up to the kernel, so the rounds are bounded by `fuel`.
  unfoldable pub cat_loop : ℕ → ℤ → Program ℤ
  unfolding report_write
  cat_loop zero fd = stop no_fuel
  cat_loop (suc fuel) fd = do
    (result, buffer) ← syscall_bytes k (Wrappers.read fd 1024)
    elim result [
      | pos (suc n) ↦ do
        wrresult ← syscall k (Wrappers.write stdout (take (suc n) buffer))
        report_write wrresult
        cat_loop fuel fd
      | other ↦ pure other
    ]

  report_read : ℤ → Program Unit0
  report_read (pos n) = skip
  report_read (negsuc n) = write_err k (codes "Error reading file") (negsuc n)

  pub cat_opened : ℕ → ℤ → Program Unit0
  unfolding cat_loop report_read
  cat_opened fuel (negsuc n) = write_err k (codes "Couldn't open file") (negsuc n)
  cat_opened fuel (pos fd) = do result ← cat_loop fuel (pos fd); report_read result

  cat_file : ℕ → Option ℕ → Program Unit0
  unfolding cat_opened
  cat_file fuel none = write_str k (codes "No file path specified.\n")
  cat_file fuel (some path) = do
    terminate_in_line path
    name ← text_at path
    fd ← syscall k (Wrappers.openat2 name (Constant.o_rdonly ∷ Constant.o_noatime ∷ []))
    cat_opened fuel fd

  pub cmd_cat : ℕ → ℕ → Program Unit0
  unfolding cat_file
  cmd_cat fuel next = do path ← find_in_line next; cat_file fuel path

  -- `envp` up to its NULL.
  pub cmd_env : List Text → Program Unit0
  cmd_env [] = skip
  cmd_env (e ∷ envp) = do write_str k e; write_str k (codes "\n"); cmd_env envp

  pub cmd_exit : Program Unit0
  cmd_exit = do
    res ← syscall k (Wrappers.reboot_hard Constant.linux_reboot_cmd_power_off)
    stop (after_reboot res)

  -- The fields are `totalram`, `freeram` and `mem_unit`, of type `unsigned long` and `unsigned`.
  pub cmd_usage : Program Unit0
  cmd_usage = do
    (res, info) ← syscall_fields k Wrappers.sysinfo
    syscheck k (place (codes ":128")) res
    let total = to_u64 (field 0 info)
    let free = to_u64 (field 1 info)
    let unit = to_u64 (field 2 info)
    write_str k (codes "Memory Used/Total: ")
    write_int k ((total + 2 ^ 64 - free) % 2 ^ 64 * unit % 2 ^ 64)
    write_str k (codes "/")
    write_int k (total * unit % 2 ^ 64)
    write_str k (codes " bytes\n")

  -- `path` is a string of the caller.
  pub pathfd : Text → Program ℤ
  pathfd path =
      syscall k (Wrappers.openat2 path (Constant.o_path ∷ Constant.o_cloexec ∷ []))
      >>= syscheck k (place (codes ":304"))
