-- ===== src/Command/Spawn/Orderly.antt =====
-- init/command.c: the steps of a child do not crash.
pub mod Memrun
pub mod Busybox
use mathlib.Core.Path.{subst}
use minlinux.Command.Args.Laws.{HasArgs}
use minlinux.Base.{
  ℕ, zero, suc, ◌+◌, ◌-◌, ◌≤◌, ◌<◌, ◌≡◌, refl, sym, ap, false, Option, some, List, [], ◌∷◌, arith,
  length, codes, set,
}
use minlinux.Base.Int.{ℤ, pos, negsuc, IsInt64, to_u64_small}
use minlinux.Memory.{Memory, ok}
use minlinux.Memory.Text.{HasText}
use minlinux.System.{Kernel, World, record_call}
use minlinux.System.Abi.{Argument, Call, Constant, flags, no_signals}
use minlinux.System.Wrappers
use minlinux.System.Wrappers.{Text}
use minlinux.System.Print.{Build, stdout, syscheck}
use minlinux.System.Orderly.{
  Orderly, goes_on, ends, Anyhow, Line, anyhow, and_then-Orderly, write_int-Orderly,
  write_err-Orderly, syscheck-Orderly,
}
use minlinux.Command.Scan.Laws.{no_word, word, find_arg-Finds, terminate_arg-Cuts}
use minlinux.Command.Words.{push_word, words, lead, behind, split, words-behind}
use minlinux.Command.Scan.{find_arg}
use minlinux.Command.Args.{Vector, Filled, fill_args, max_args}
use minlinux.Command.Documented.{Documented}
use minlinux.Command.Builtins.{field}
use minlinux.Command.Spawn.Prepared.{text_at_lem, texts_of_lem, prepared}
use minlinux.Command.Spawn.Vectored.{vectored}
use minlinux.Command.Spawn.Parent.{found_or_none}
use minlinux.Command.Spawn.{
  place, fill_from, open_console, after_exec, exec, fresh_args, memrun_child, memrun_parent,
  memrun_fork, cmd_memrun, busybox_child, busybox_parent, busybox_fork, busybox,
}

module _ (k : Kernel) (b : Build) (d : Documented k) where
  -- A checked call.
  pub checked-Orderly :
      (line : Text) (c : Call) (w : World) {m : Memory}
      → w.buffer ≡ m
      → Orderly (Line m) (syscheck k (place k b line) (k.rax w.calls c) (record_call c w))
  checked-Orderly line c w e =
      syscheck-Orderly k (place k b line) (k.rax w.calls c) (record_call c w) (d.wide w.calls c) e

  pub fill_from-Orderly :
      (base : ℕ) (args : Vector) (next : Option ℕ) (w : World) (f : Filled)
      → fill_args b.arg_max (max_args b.arg_max - base) base args next w.buffer ≡ ok (false, f)
      → Orderly
          (λ cells w'. (cells ≡ f.args) × (w'.buffer ≡ f.line))
          (fill_from k b base args next w)
  unfolding fill_from
  fill_from-Orderly base args next w f e = rw e (goes_on (refl, refl))

  pub open_console-Orderly :
      (line1 line2 line3 : Text) (w : World) {m : Memory}
      → w.buffer ≡ m
      → Orderly (Line m) (open_console k b line1 line2 line3 w)
  unfolding open_console
  open_console-Orderly line1 line2 line3 w e =
      let in_call = Wrappers.open_file (codes "/dev/console") (Constant.o_rdonly ∷ []) 0 in
      let out_call =
        Wrappers.open_file (codes "/dev/console") (Constant.o_append ∷ Constant.o_wronly ∷ []) 0 in
      and_then-Orderly (checked-Orderly line1 in_call (record_call Wrappers.close_all_files w) e)
        (λ _ w1 e1. and_then-Orderly (checked-Orderly line2 out_call w1 e1) (λ out w2 e2.
          and_then-Orderly (checked-Orderly line3 (Wrappers.dup3 out 2 0) w2 e2)
            (λ _ w3 e3. goes_on e3)))

  after_exec-Orderly : (res : ℤ) (w : World) → IsInt64 res → Orderly Anyhow (after_exec k b res w)
  unfolding after_exec
  after_exec-Orderly (pos n) w small = ends (λ e. cc)
  after_exec-Orderly (negsuc n) w small =
      anyhow (write_err-Orderly k (codes "execveat returned ") (negsuc n) w small refl)

  pub exec-Orderly :
      (line : Text) (dirfd : Argument) (name : Text) (args : List Text) (mode : List Constant)
      (w : World)
      → Orderly Anyhow (exec k b line dirfd name args mode w)
  unfolding exec
  exec-Orderly line dirfd name args mode w =
      and_then-Orderly
        (checked-Orderly line (Wrappers.sigprocmask Constant.sig_setmask no_signals) w refl)
        (λ _ w1 _.
          let execs = Wrappers.execveat dirfd name args [] mode in
          after_exec-Orderly (k.rax w1.calls execs) (record_call execs w1) (d.wide w1.calls execs))
