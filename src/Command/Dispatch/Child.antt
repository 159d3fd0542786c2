-- ===== src/Command/Dispatch/Child.antt =====
-- init/command.c: what a console line that names no built-in command executes.
use minlinux.Base.{ℕ, ◌+◌, ◌<◌, ◌≡◌, ◌≢◌, List, ◌∷◌, length, arith, ap, codes}
use minlinux.Base.Int.{pos}
use minlinux.Memory.Text.{HasText}
use minlinux.System.{Kernel, World}
use minlinux.System.Abi.{Call, Constant}
use minlinux.System.Wrappers
use minlinux.System.Wrappers.{Text}
use minlinux.System.Print.{Build}
use minlinux.Command.Args.{max_args}
use minlinux.Command.Words.{Line, words, behind}
use minlinux.Command.Spawn.Exec.{Executes, busybox-Executes}
use minlinux.Command.Dispatch.{Builtin, process_command}
use minlinux.Command.Dispatch.Laws.{name_of, nothing, program, process_command-Runs}

module _ (k : Kernel) (b : Build) (fuel : ℕ) (envp : List Text)
    (succeeds : (before : List Call) (c : Call) → (n : ℕ) × (k.rax before c ≡ pos n)) where
  -- process_command of a line whose first word names no built-in command, of fewer words than
  -- MAX_ARGS less 1: the child that clone3 begins, if all its calls succeed, is replaced by /busybox
  -- with the arguments /busybox and the words of the line.
  pub process_command-Executes :
      (p : ℕ) (s : Line) (w : World) (name : Text) (args : List Text)
      → HasText w.buffer p s
      → words s ≡ name ∷ args
      → ((x : Builtin) → name ≢ name_of x)
      → 1 + length (words s) < max_args b.arg_max
      → k.rax w.calls (Wrappers.clone3 Constant.sigchld) ≡ pos 0
      → Executes k (codes "/busybox" ∷ words s) w.calls (process_command k b fuel envp p w)
  process_command-Executes p s w name args here split unknown few child =
      elim (process_command-Runs k b fuel envp p s w here) [
        | nothing none_there returns ↦ absurd (cc)
        | program prog next more line parts named onward text _ runs ↦
            rw (runs (λ x same. unknown x (cc)), parts)
              (busybox-Executes k b succeeds prog next _ (behind more) (record w { buffer = line })
                named onward text (omega (arith, few, ap (λ l. length l) parts)) child)
      ]
