-- ===== src/Command/Spawn.antt =====
-- init/command.c: memrun and busybox, which run a program in a child process.
pub mod Frame
pub mod Prepared
pub mod Exec
pub mod Vectored
pub mod Memrun
pub mod Orderly
pub mod Overflow
pub mod Parent
pub mod Failed
mod Tests
use minlinux.Base.{
  ℕ, zero, suc, ◌-◌, Bool, true, false, Option, none, some, List, [], ◌∷◌, ◌++◌, replicate, set,
  drop, codes,
}
use minlinux.Base.Int.{ℤ, pos, negsuc, to_u64}
use minlinux.System.{
  Kernel, Program, Unit0, replaced, stop, syscall, syscall_fields, run, gets, modify, ◌>>=◌, ◌>>◌,
  skip, pure,
}
use minlinux.System.Abi.{Argument, Constant, flags, int, no_signals}
use minlinux.System.Wrappers
use minlinux.System.Wrappers.{Text}
use minlinux.System.Print.{Build, write_str, write_int, write_err, syscheck}
use minlinux.Command.Args.{Vector, fill_args, max_args}
use minlinux.Command.Builtins.{find_in_line, terminate_in_line, text_at, field}

-- The strings that a vector of pointers into the console line names, up to its NULL.
pub texts_of : Vector → Program (List Text)
texts_of [] = pure []
texts_of (none ∷ args) = pure []
texts_of (some p ∷ args) = do t ← text_at p; ts ← texts_of args; pure (t ∷ ts)

module _ (k : Kernel) (b : Build) where
  abbrev place : Text → Text
  place line = b.command_c ++ line

  abbrev checked : Text → ℤ → Program ℤ
  checked line res = syscheck k (place line) res

  report_truncated : Bool → ℕ → Program Unit0
  report_truncated false limit = skip
  report_truncated true limit = do
    write_str k (codes "Truncated to ")
    write_int k limit
    write_str k (codes " args\n")

  -- `fill_args(MAX_ARGS - base, &args[base], next)` with its message.
  pub fill_from : ℕ → Vector → Option ℕ → Program Vector
  unfolding report_truncated
  fill_from base args next = do
    let limit = max_args b.arg_max
    line ← gets (λ w. w.buffer)
    (truncated, f) ← run (fill_args b.arg_max (limit - base) base args next line)
    modify (λ w. record w { buffer = f.line })
    report_truncated truncated limit
    pure f.args

  -- The local array before its first cells are written.
  abbrev fresh_args : Vector
  fresh_args = replicate (max_args b.arg_max) none

  -- The standard files of the child, with the lines of their checks.
  pub open_console : Text → Text → Text → Program Unit0
  open_console line1 line2 line3 = do
    syscall k Wrappers.close_all_files
    in' ← syscall k (Wrappers.open_file (codes "/dev/console") (Constant.o_rdonly ∷ []) 0)
    checked line1 in'
    out ←
        syscall k
          (Wrappers.open_file (codes "/dev/console") (Constant.o_append ∷ Constant.o_wronly ∷ []) 0)
    out' ← checked line2 out
    dup ← syscall k (Wrappers.dup3 out' 2 0)
    checked line3 dup
    skip

  -- A successful call puts another program in this one's place.
  after_exec : ℤ → Program Unit0
  after_exec (pos n) = stop replaced
  after_exec (negsuc n) = write_err k (codes "execveat returned ") (negsuc n)

  pub exec : Text → Argument → Text → List Text → List Constant → Program Unit0
  unfolding after_exec
  exec line dirfd name args mode = do
    mask ← syscall k (Wrappers.sigprocmask Constant.sig_setmask no_signals)
    checked line mask
    res ← syscall k (Wrappers.execveat dirfd name args [] mode)
    after_exec res

  memrun_child : ℕ → ℕ → Program Unit0
  unfolding fill_from open_console exec
  memrun_child path next = do
    cells ← fill_from 1 (set fresh_args 0 (some path)) (some next)
    open_console (codes ":174") (codes ":175") (codes ":176")
    memfd ← syscall k (Wrappers.memfd_create 0)
    name ← text_at path
    opened ← syscall k (Wrappers.openat2 name (Constant.o_cloexec ∷ []))
    infd ← checked (codes ":183") opened
    (res, stats) ← syscall_fields k (Wrappers.fstatat infd [] (Constant.at_empty_path ∷ []))
    checked (codes ":187") res
    copied ← syscall k (Wrappers.copy_file_range infd memfd (field 0 stats))
    checked (codes ":191") copied
    args ← texts_of cells
    exec (codes ":200") (int memfd) [] args (Constant.at_empty_path ∷ [])

  -- The fields of `siginfo` are `si_pid` and `si_status`.
  memrun_parent : ℤ → Program Unit0
  memrun_parent tid = do
    write_str k (codes "Forked process ")
    write_int k (to_u64 tid)
    write_str k (codes "\n")
    (res, siginfo) ← syscall_fields k (Wrappers.waitid Constant.p_pid tid (Constant.wexited ∷ []))
    checked (codes ":153") res
    write_str k (codes "Child process ")
    write_int k (to_u64 (field 0 siginfo))
    write_str k (codes " exited with status ")
    write_int k (to_u64 (field 1 siginfo))
    write_str k (codes "\n")

  -- `clone3` returns in the parent with the child's number and in the child with 0.
  memrun_fork : ℤ → ℕ → ℕ → Program Unit0
  unfolding memrun_child memrun_parent
  memrun_fork (pos zero) path next = memrun_child path next
  memrun_fork (pos (suc n)) path next = memrun_parent (pos (suc n))
  memrun_fork (negsuc n) path next = write_err k (codes "clone3 error") (negsuc n)

  pub memrun_path : Option ℕ → Program Unit0
  unfolding memrun_fork
  memrun_path none = write_str k (codes "No file path specified.\n")
  memrun_path (some path) = do
    next ← terminate_in_line path
    tid ← syscall k (Wrappers.clone3 Constant.sigchld)
    memrun_fork tid path next

  pub cmd_memrun : ℕ → Program Unit0
  unfolding memrun_path
  cmd_memrun next = do path ← find_in_line next; memrun_path path

  busybox_child : ℕ → Option ℕ → Program Unit0
  unfolding fill_from open_console exec
  busybox_child command next = do
    cells ← fill_from 2 (set fresh_args 1 (some command)) next
    open_console (codes ":240") (codes ":241") (codes ":242")
    args ← texts_of (drop 1 cells)
    exec (codes ":251") (flags (Constant.at_fdcwd ∷ [])) (codes "/busybox")
        (codes "/busybox" ∷ args) []

  busybox_parent : ℤ → Program Unit0
  busybox_parent tid = do
    (res, siginfo) ← syscall_fields k (Wrappers.waitid Constant.p_pid tid (Constant.wexited ∷ []))
    checked (codes ":219") res
    write_str k (codes "Busybox exited with status ")
    write_int k (to_u64 (field 1 siginfo))
    write_str k (codes "\n")

  busybox_fork : ℤ → ℕ → Option ℕ → Program Unit0
  unfolding busybox_child busybox_parent
  busybox_fork (pos zero) command next = busybox_child command next
  busybox_fork (pos (suc n)) command next = busybox_parent (pos (suc n))
  busybox_fork (negsuc n) command next = write_err k (codes "clone3 error") (negsuc n)

  pub busybox : ℕ → ℕ → Program Unit0
  unfolding busybox_fork
  busybox command next = do
    next' ← find_in_line next
    tid ← syscall k (Wrappers.clone3 Constant.sigchld)
    busybox_fork tid command next'
