-- ===== src/Command/Dispatch/Overflow.antt =====
-- init/command.c: when a child that a console line begins crashes.
use native.Mathlib.Decide.{dec_lt}
use minlinux.Base.{ℕ, ◌+◌, ◌≤◌, ◌<◌, ◌≡◌, ◌≢◌, ◌↔◌, ap, ◌∙◌, List, ◌∷◌, length, arith}
use minlinux.Base.Int.{pos}
use minlinux.Memory.Text.{HasText}
use minlinux.System.{Kernel, World, stopped, crashed}
use minlinux.System.Abi.{Constant}
use minlinux.System.Wrappers
use minlinux.System.Wrappers.{Text}
use minlinux.System.Print.{Build}
use minlinux.System.Orderly.{Orderly-ne-crashed}
use minlinux.Command.Args.{max_args}
use minlinux.Command.Words.{Line, words, behind}
use minlinux.Command.Documented.{Documented}
use minlinux.Command.Spawn.Overflow.{busybox-crashed}
use minlinux.Command.Dispatch.{Builtin, process_command}
use minlinux.Command.Dispatch.Laws.{name_of, nothing, program, process_command-Runs}
use minlinux.Command.Dispatch.Orderly.{process_command-Orderly}

module _ (k : Kernel) (b : Build) (fuel : ℕ) (envp : List Text) (d : Documented k) where
  -- process_command of a line whose first word names no built-in command, in the child that clone3
  -- begins, with a kernel that answers as documented and three MAX_ARGS or more: it makes an access
  -- outside an object exactly when the line has MAX_ARGS less 1 words or more, whichever calls
  -- fail. The text of an error that SYSCHECK reads behind a failed call is an object that has
  -- ended; a run that comes to it is undefined, which is not counted here.
  pub process_command-crashed_iff :
      (p : ℕ) (s : Line) (w : World) (name : Text) (args : List Text)
      → HasText w.buffer p s
      → words s ≡ name ∷ args
      → ((x : Builtin) → name ≢ name_of x)
      → 2 < max_args b.arg_max
      → k.rax w.calls (Wrappers.clone3 Constant.sigchld) ≡ pos 0
      → ((w' : World) × (process_command k b fuel envp p w ≡ stopped crashed w'))
        ↔ (max_args b.arg_max ≤ 1 + length (words s))
  process_command-crashed_iff p s w name args here split unknown some_room child = (
    λ (w', crashes). elim (dec_lt (1 + length (words s)) (max_args b.arg_max)) [
      | yes room ↦ absurd (
          Orderly-ne-crashed (process_command-Orderly k b fuel envp d p s w here (λ _ _. room))
            crashes)
      | no full ↦ omega (arith, full)
    ],
    λ many. elim (process_command-Runs k b fuel envp p s w here) [
      | nothing none_there returns ↦ absurd (cc)
      | program prog next more line parts named onward text _ runs ↦ (
        _,
        runs (λ x same. unknown x (cc))
            ∙ busybox-crashed k b prog next (behind more) (record w { buffer = line }) text
                some_room (omega (arith, many, ap (λ l. length l) parts)) child,
      )
    ],
  )
