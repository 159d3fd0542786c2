-- ===== src/Init/Boot/Orderly.antt =====
-- init/init.c: where init and its children can crash, with a kernel that answers as documented.
use native.Mathlib.Decide.{dec_lt}
use minlinux.Base.{ℕ, ◌+◌, ◌^◌, ◌≤◌, arith, ◌≡◌, ◌≢◌, List, [], length}
use minlinux.Base.Int.{pos}
use minlinux.Memory.Text.{HasText}
use minlinux.System.{Kernel, World, Outcome, Stop, stopped, crashed}
use minlinux.System.Abi.{Call, Constant}
use minlinux.System.Wrappers
use minlinux.System.Wrappers.{Text}
use minlinux.System.Frame.{Accounted}
use minlinux.System.Print.{Build}
use minlinux.System.Orderly.{Orderly, Orderly-ne-crashed}
use minlinux.Uring.Contract.{Contract}
use minlinux.Command.Args.{max_args}
use minlinux.Command.Words.{words}
use minlinux.Command.Documented.{Documented}
use minlinux.Command.Dispatch.{process_command}
use minlinux.Command.Dispatch.Orderly.{process_command-Orderly}
use minlinux.Init.{event_console_read}
use minlinux.Init.Safe.{Safe, in_command}
use minlinux.Init.Boot.{start}
use minlinux.Init.Boot.Safe.{start-Safe}

-- clone3 answers 0 at no time: the process is init and none of its children.
abbrev pub IsParent : Kernel → Type 0
IsParent k = (before : List Call) → k.rax before (Wrappers.clone3 Constant.sigchld) ≢ pos 0

-- The run stops, and if by a crash, then in a child and within process_command, of a line with
-- MAX_ARGS less 1 words or more.
pub data Confined (k : Kernel) (b : Build) (fuel : ℕ) (envp : List Text) {A : Type 0}
    : Outcome A → Type 0 where
  ends :
      {s : Stop} {w : World}
      → s ≢ crashed
      → Accounted s w.calls
      → Confined k b fuel envp (stopped s w)
  overrun :
      {w : World} (before : World) (line : Text)
      → HasText before.buffer 0 line
      → process_command k b fuel envp 0 before ≡ stopped crashed w
      → max_args b.arg_max ≤ 1 + length (words line)
      → (IsParent k → ⊥)
      → Confined k b fuel envp (stopped crashed w)

module _ (k : Kernel) (b : Build) (fuel : ℕ) (envp : List Text) (d : Documented k) where
  Safe-Confined :
      {A : Type 0} {o : Outcome A} → Safe k b fuel envp (λ _. ⊥) o → Confined k b fuel envp o
  Safe-Confined (Safe.goes_on never) = absurd never
  Safe-Confined (Safe.ends other a) = Confined.ends other a
  Safe-Confined (in_command before line text crashes) =
      let orderly = process_command-Orderly k b fuel envp d 0 line before text in
      overrun before line text crashes
        (elim (dec_lt (1 + length (words line)) (max_args b.arg_max)) [
          | yes room ↦ absurd (Orderly-ne-crashed (orderly (λ _ _. room)) crashes)
          | no full ↦ omega (arith, full)
        ])
        (λ parent. Orderly-ne-crashed (orderly (λ c e. absurd (parent c e))) crashes)

  Confined-Orderly :
      {A : Type 0} {o : Outcome A} → IsParent k → Confined k b fuel envp o → Orderly (λ _ _. ⊥) o
  Confined-Orderly parent (Confined.ends other a) = Orderly.ends other
  Confined-Orderly parent (overrun before line text crashes many child) = absurd (child parent)

module _ (ks kc : ℕ) (k : Kernel) (b : Build) (fuel : ℕ) (envp : List Text)
    (pending : List Call → List ℕ) (contract : Contract ks kc event_console_read 1024 k b pending)
    (room : 4 ≤ 2 ^ ks) (d : Documented k) where
  -- Before its first call and with a console buffer of 1024 bytes, with a kernel that keeps the
  -- contract of io_uring, makes rings of four entries or more and answers the calls of the commands
  -- as documented: start never returns, in init and in the children that come back to the event
  -- loop, through its boot and any number of rounds, whatever lines are entered and whichever calls
  -- fail; and it makes an access outside an object nowhere but in a command of MAX_ARGS less 1
  -- words or more, and not at all in init, the process to which clone3 never answers 0. Where the
  -- run is undefined otherwise, its last call wrote the place of a failed call, as SYSCHECK does
  -- before it reads the text of the error, which has ended, or powered off.
  pub start-Confined :
      (rounds : ℕ) (w : World)
      → w.calls ≡ []
      → length w.buffer ≡ 1024
      → Confined k b fuel envp (start k b fuel envp rounds w)
  start-Confined rounds w first line =
      Safe-Confined k b fuel envp d
        (start-Safe ks kc k b fuel envp pending contract room rounds w first line)

  -- The same in init, where nothing crashes.
  start-Orderly :
      (rounds : ℕ) (w : World)
      → IsParent k
      → w.calls ≡ []
      → length w.buffer ≡ 1024
      → Orderly (λ _ _. ⊥) (start k b fuel envp rounds w)
  start-Orderly rounds w parent first line =
      Confined-Orderly k b fuel envp d parent (start-Confined rounds w first line)
