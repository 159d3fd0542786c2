-- ===== src/Command/Spawn/Frame.antt =====
-- init/command.c: the parts of memrun and busybox leave the queue alone.
pub mod Programs
use minlinux.Base.{
  ℕ, zero, suc, refl, ◌∙◌, ◌-◌, Bool, true, false, List, [], ◌∷◌, Option, none, some, codes, set,
  drop, length,
}
use minlinux.Base.Int.{ℤ, pos, negsuc, to_u64}
use minlinux.Memory.{Run, ok, fault, out_of_fuel}
use minlinux.Memory.Holds.{Holds}
use minlinux.System
use minlinux.System.{Kernel, World, and_then, run, modify, pure}
use minlinux.System.Abi.{Argument, Constant, flags, int, no_signals}
use minlinux.System.Wrappers
use minlinux.System.Wrappers.{Text}
use minlinux.System.Print.{Build, stdout}
use minlinux.System.Print.Frame.{write_int-Kept, write_err-Kept, syscheck-Kept}
use minlinux.System.Frame.{later, Same, Kept, goes_on, ends, calls_Same, and_then-Kept}
use minlinux.Command.Args.{Vector, Filled, fill_args, max_args}
use minlinux.Command.Builtins.{field}
use minlinux.Command.Frame.{
  SameSize, fill_args-Holds, find_in_line-Kept, terminate_in_line-Kept, text_at-Kept,
}
use minlinux.Command.Spawn.{
  texts_of, place, report_truncated, fill_from, fresh_args, open_console, after_exec, exec,
  memrun_child, memrun_parent, memrun_fork, memrun_path, cmd_memrun, busybox_child, busybox_parent,
  busybox_fork, busybox,
}

pub texts_of-Kept : (args : Vector) {v w : World} → Same v w → Kept v (texts_of args w)
unfolding texts_of
texts_of-Kept [] s = goes_on s
texts_of-Kept (none ∷ args) s = goes_on s
texts_of-Kept (some p ∷ args) s =
    and_then-Kept (text_at-Kept s p)
      (λ t w1 s1. and_then-Kept (texts_of-Kept args s1) (λ ts w2 s2. goes_on s2))

module _ (k : Kernel) (b : Build) where
  report_truncated-Kept :
      (truncated : Bool) (limit : ℕ) {v w : World}
      → Same v w
      → Kept v (report_truncated k b truncated limit w)
  unfolding report_truncated
  report_truncated-Kept false limit s = goes_on s
  report_truncated-Kept true limit s =
      and_then-Kept (write_int-Kept k (calls_Same s (later refl s.quiet)) limit)
        (λ _ w' s'. goes_on (calls_Same s' (later refl s'.quiet)))

  pub fill_from-Kept :
      (base : ℕ) (args : Vector) (next : Option ℕ) {v w : World}
      → Same v w
      → Kept v (fill_from k b base args next w)
  unfolding fill_from
  fill_from-Kept base args next {v} {w} s =
      let limit = max_args b.arg_max in
      filled (fill_args b.arg_max (limit - base) base args next w.buffer)
        (fill_args-Holds b.arg_max (limit - base) base args next w.buffer)
    where
      filled :
          (r : Run (Bool × Filled))
          → Holds (SameSize (length w.buffer)) r
          → Kept v (
              and_then (run r w) (λ x.
                System.◌>>◌
                  (modify (λ w. record w { buffer = x.1.line }))
                  (System.◌>>◌ (report_truncated k b x.0 (max_args b.arg_max)) (pure x.1.args))))
      filled (ok (truncated, f)) h =
          and_then-Kept
            (report_truncated-Kept truncated (max_args b.arg_max)
              (record { quiet = s.quiet; ring = s.ring; size = h ∙ s.size }))
            (λ _ w' s'. goes_on s')
      filled fault h = ends s tt
      filled out_of_fuel h = ends s tt

  pub open_console-Kept :
      (line1 line2 line3 : Text) {v w : World}
      → Same v w
      → Kept v (open_console k b line1 line2 line3 w)
  unfolding open_console
  open_console-Kept line1 line2 line3 {v} {w} s =
      let in_call = Wrappers.open_file (codes "/dev/console") (Constant.o_rdonly ∷ []) 0 in
      let out_call =
        Wrappers.open_file (codes "/dev/console") (Constant.o_append ∷ Constant.o_wronly ∷ []) 0 in
      and_then-Kept
        (syscheck-Kept k (calls_Same s (later refl (later refl s.quiet))) (place k b line1)
          (k.rax (Wrappers.close_all_files ∷ w.calls) in_call))
        (λ _ w1 s1.
          and_then-Kept
            (syscheck-Kept k (calls_Same s1 (later refl s1.quiet)) (place k b line2)
              (k.rax w1.calls out_call))
            (λ out w2 s2.
              and_then-Kept
                (syscheck-Kept k (calls_Same s2 (later refl s2.quiet)) (place k b line3)
                  (k.rax w2.calls (Wrappers.dup3 out 2 0)))
                (λ _ w3 s3. goes_on s3)))

  after_exec-Kept : (res : ℤ) {v w : World} → Same v w → Kept v (after_exec k b res w)
  unfolding after_exec
  after_exec-Kept (pos n) s = ends s tt
  after_exec-Kept (negsuc n) s = write_err-Kept k s (codes "execveat returned ") (negsuc n)

  pub exec-Kept :
      (line : Text) (dirfd : Argument) (name : Text) (args : List Text) (mode : List Constant)
      {v w : World}
      → Same v w
      → Kept v (exec k b line dirfd name args mode w)
  unfolding exec
  exec-Kept line dirfd name args mode {v} {w} s =
      and_then-Kept
        (syscheck-Kept k (calls_Same s (later refl s.quiet)) (place k b line)
          (k.rax w.calls (Wrappers.sigprocmask Constant.sig_setmask no_signals)))
        (λ _ w1 s1.
          after_exec-Kept (k.rax w1.calls (Wrappers.execveat dirfd name args [] mode))
            (calls_Same s1 (later refl s1.quiet)))
