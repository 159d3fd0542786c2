-- ===== src/Command/Spawn/Failed.antt =====
-- init/command.c: the child of busybox when execveat fails.
use minlinux.Base.{ℕ, ◌+◌, ◌≤◌, ◌<◌, ◌^◌, ◌≡◌, ◌∙◌, false, List, [], ◌∷◌, length, codes}
use minlinux.Base.Int.{pos, negsuc}
use minlinux.Memory.{Memory}
use minlinux.Memory.Text.{HasText}
use minlinux.Command.Words.{Line, words}
use minlinux.Command.Args.{max_args}
use minlinux.Command.Spawn.{busybox}
use minlinux.Command.Spawn.Exec.{
  is_exec, mask, console_in, console_out, console_calls, argv_of, given_out, busybox-exec,
  exec-fails,
}
use minlinux.Command.Spawn.Parent.{Tells, number-Tells}
use minlinux.System.{Kernel, World}
use minlinux.System.Abi.{Call, Argument, Constant, flags, no_signals}
use minlinux.System.Wrappers
use minlinux.System.Wrappers.{Text}
use minlinux.System.Print.{Build, stdout}

module _ (k : Kernel) (b : Build)
    (succeeds : (before : List Call) (c : Call)
      → is_exec c.number ≡ false
      → (n : ℕ) × (k.rax before c ≡ pos n)) where
  -- busybox, called with the name of a command in the console line and with the text `s` behind it,
  -- of fewer words than MAX_ARGS less 2: in the child that clone3 begins, if execveat fails and all
  -- other calls succeed, it writes the error behind the other calls of the child and returns.
  pub busybox-Tells :
      (command next n : ℕ) (name : Text) (s : Line) (w : World)
      → HasText w.buffer command name
      → command + length name ≤ next
      → HasText w.buffer next s
      → 2 + length (words s) < max_args b.arg_max
      → k.rax w.calls (Wrappers.clone3 Constant.sigchld) ≡ pos 0
      → n < 2 ^ 63
      → ((before : List Call) (dirfd : Argument) (path : Text) (args : List Text)
            (mode : List Constant)
          → k.rax before (Wrappers.execveat dirfd path args [] mode) ≡ negsuc n)
      → let before = Wrappers.clone3 Constant.sigchld ∷ w.calls in
        let out = k.rax (console_in ∷ Wrappers.close_all_files ∷ before) console_out in
        (line : Memory) × Tells
          (Wrappers.write stdout (codes ": ")
            ∷ Wrappers.write stdout (codes "execveat returned ")
            ∷ Wrappers.execveat
                (flags (Constant.at_fdcwd ∷ []))
                (codes "/busybox")
                (codes "/busybox" ∷ name ∷ words s)
                []
                []
            ∷ Wrappers.sigprocmask Constant.sig_setmask no_signals
            ∷ console_calls out before)
          (negsuc n)
          (record w { buffer = line })
          (busybox k b command next w)
  busybox-Tells command next n name s w named apart text few child small fails =
      let here = flags (Constant.at_fdcwd ∷ []) in
      let args = argv_of k b succeeds command next name s w named apart text few child in
      let (line, e) = busybox-exec k b succeeds command next name s w named apart text few child in
      let out = given_out k b succeeds command next name s w named apart text few child in
      let w2 = record w {
        calls = console_calls out (Wrappers.clone3 Constant.sigchld ∷ w.calls);
        buffer = line;
      } in
      let stuck =
        exec-fails k b succeeds (codes ":251") here (codes "/busybox") args [] w2 n
          (fails (mask k b succeeds ∷ w2.calls) here (codes "/busybox") args []) in
      let t = number-Tells k b _ (negsuc n) (record w { buffer = line }) small in
      (line, record { notation = t.notation; decimal = t.decimal; returns = e ∙ stuck ∙ t.returns })
