-- ===== src/Command/Spawn/Tests.antt =====
-- init/command.c: busybox and memrun with a kernel in which the child ends with status 3, memrun in
-- a child whose calls succeed, and a child of busybox whose execveat fails.
use minlinux.Memory.{Memory}
use minlinux.Memory.Text.{HasText}
use minlinux.System.Print.{stdout}
use minlinux.Base.{
  ℕ, zero, suc, List, false, ◌≡◌, if◌then◌else◌, refl, some, [], ◌∷◌, ◌++◌, arith, codes,
}
use minlinux.Base.Int.{ℤ, pos, negsuc, IsInt64}
use minlinux.System.{Kernel, World, record_call}
use minlinux.System.Abi.{Call, Constant, flags, no_signals}
use minlinux.System.Wrappers
use minlinux.Command.Builtins.{field}
use minlinux.Command.Spawn.{busybox, memrun_path}
use minlinux.Command.Spawn.Memrun.{Loads, memrun_path-Loads}
use minlinux.Command.Spawn.Exec.{is_exec, console_calls}
use minlinux.Command.Spawn.Failed.{busybox-Tells}
use minlinux.Command.Spawn.Parent.{Tells, Attends, wait_call, busybox-Attends}
use minlinux.Command.Spawn.Parent.Memrun.{MemrunAttends, memrun_path-Attends}
use minlinux.Init.Samples.{unmapped, build, ring}

-- Every call is answered by 7, the number of the child.
abbrev parent_kernel : Kernel
parent_kernel = record {
  rax = λ _ _. pos 7;
  bytes = λ _ _. [];
  fields = λ _ _. pos 7 ∷ pos 3 ∷ [];
  mapped = λ _. unmapped;
  rings = λ _ u. u;
  lines = λ _ m. m;
}

-- The fields that it gives are small.
seven_or_three :
    (before : List Call) (tid : ℤ) (i : ℕ)
    → IsInt64 (field i (parent_kernel.fields before (wait_call tid)))
seven_or_three before tid zero = omega arith
seven_or_three before tid (suc zero) = omega arith
seven_or_three before tid (suc (suc i)) = omega arith

-- The line `rm x` after its first word was ended.
abbrev removing : World
removing = record {
  calls = [];
  buffer = codes "rm" ++ (0 ∷ codes "x" ++ (0 ∷ []));
  sigfd = pos 4;
  uring = ring;
}

busybox-Attends_example :
    Attends parent_kernel build
      (pos 7)
      (record_call (Wrappers.clone3 Constant.sigchld) removing)
      (busybox parent_kernel build 0 3 removing)
busybox-Attends_example =
    busybox-Attends parent_kernel build (λ _ _. omega arith) (λ _ _. omega arith) 0 3 (codes "x")
      removing (refl, λ e. omega (arith, e), refl)

memrun_path-Attends_example :
    (line : Memory) × HasText line 3 (codes "x")
    × MemrunAttends parent_kernel build
        (pos 7)
        (record_call (Wrappers.clone3 Constant.sigchld) (record removing { buffer = line }))
        (memrun_path parent_kernel build (some 3) removing)
memrun_path-Attends_example =
    memrun_path-Attends parent_kernel build (λ _ _. omega arith) seven_or_three 3 (codes "x")
      removing (refl, λ e. omega (arith, e), refl)

-- Every call is answered by 0, clone3 too.
abbrev child_kernel : Kernel
child_kernel = record {
  rax = λ _ _. pos 0;
  bytes = λ _ _. [];
  fields = λ _ _. pos 512 ∷ [];
  mapped = λ _. unmapped;
  rings = λ _ u. u;
  lines = λ _ m. m;
}

-- A path and an argument with two blanks between them.
abbrev loading : World
loading = record { calls = []; buffer = codes "/x  -v" ++ (0 ∷ []); sigfd = pos 4; uring = ring }

-- The second blank makes an empty argument.
memrun_path-Loads_example :
    Loads child_kernel
      (codes "/x")
      (codes "/x" ∷ [] ∷ codes "-v" ∷ [])
      (Wrappers.clone3 Constant.sigchld ∷ [])
      (memrun_path child_kernel build (some 0) loading)
memrun_path-Loads_example =
    memrun_path-Loads child_kernel build (λ _ _. (0, refl)) 0 (codes "/x  -v") loading
      (ground arith) (omega arith) refl

-- execveat fails with error 2; every other call is answered by 0.
abbrev missing_kernel : Kernel
missing_kernel = record child_kernel { rax = λ _ c. if is_exec c.number then negsuc 1 else pos 0 }

missing_succeeds :
    (before : List Call) (c : Call)
    → is_exec c.number ≡ false
    → (n : ℕ) × (missing_kernel.rax before c ≡ pos n)
missing_succeeds before c other = (0, rw other refl)

busybox-Tells_example :
    (line : Memory) × Tells
      (Wrappers.write stdout (codes ": ")
        ∷ Wrappers.write stdout (codes "execveat returned ")
        ∷ Wrappers.execveat
            (flags (Constant.at_fdcwd ∷ []))
            (codes "/busybox")
            (codes "/busybox" ∷ codes "rm" ∷ codes "x" ∷ [])
            []
            []
        ∷ Wrappers.sigprocmask Constant.sig_setmask no_signals
        ∷ console_calls (pos 0) (Wrappers.clone3 Constant.sigchld ∷ []))
      (negsuc 1)
      (record removing { buffer = line })
      (busybox missing_kernel build 0 3 removing)
busybox-Tells_example =
    busybox-Tells missing_kernel build missing_succeeds 0 3 1 (codes "rm") (codes "x") removing
      (ground arith) (omega arith) (ground arith) (omega arith) refl (omega arith)
      (λ _ _ _ _ _. refl)
