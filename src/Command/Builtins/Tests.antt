-- ===== src/Command/Builtins/Tests.antt =====
-- init/command.c: usage with a kernel that has 1000 units of memory, of 4096 bytes.
use minlinux.Base.{[], ◌∷◌, arith, refl}
use minlinux.Base.Int.{pos}
use minlinux.System.{Kernel, World}
use minlinux.Command.Builtins.{cmd_usage}
use minlinux.Command.Builtins.Usage.{Tells, cmd_usage-Tells}
use minlinux.Init.Samples.{unmapped, build, ring}

abbrev kernel : Kernel
kernel = record {
  rax = λ _ _. pos 0;
  bytes = λ _ _. [];
  fields = λ _ _. pos 1000 ∷ pos 400 ∷ pos 4096 ∷ [];
  mapped = λ _. unmapped;
  rings = λ _ u. u;
  lines = λ _ m. m;
}

abbrev idle : World
idle = record { calls = []; buffer = []; sigfd = pos 0; uring = ring }

cmd_usage-Tells_example :
    Tells kernel build 1000 400 4096 idle (pos 0) (cmd_usage kernel build idle)
cmd_usage-Tells_example =
    cmd_usage-Tells kernel build 1000 400 4096 idle (omega arith) (omega arith) (omega arith) refl
      (omega arith)
