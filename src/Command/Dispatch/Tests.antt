-- ===== src/Command/Dispatch/Tests.antt =====
-- init/command.c: a line of three words, with a vector of four cells.
use minlinux.Base.{◌+◌, ◌≤◌, ◌≡◌, ◌≢◌, ◌↔◌, refl, ap, [], ◌∷◌, ◌++◌, arith, codes, length}
use minlinux.Base.Int.{pos}
use minlinux.System.{Kernel, World, stopped, crashed}
use minlinux.System.Print.{Build}
use minlinux.Command.Args.{max_args}
use minlinux.Command.Words.{words}
use minlinux.Command.Documented.{Documented}
use minlinux.Command.Dispatch.{Builtin, time, ls, cat, env, exit, usage, memrun, process_command}
use minlinux.Command.Dispatch.Laws.{key, name_of}
use minlinux.Command.Dispatch.Overflow.{process_command-crashed_iff}
use minlinux.Init.Samples.{unmapped, build, ring}

-- Every call is answered by 0, clone3 too.
abbrev child_kernel : Kernel
child_kernel = record {
  rax = λ _ _. pos 0;
  bytes = λ _ _. [];
  fields = λ _ _. [];
  mapped = λ _. unmapped;
  rings = λ _ u. u;
  lines = λ _ m. m;
}

child_kernel-Documented : Documented child_kernel
child_kernel-Documented = record {
  wide = λ _ _. omega arith;
  fields = λ _ _ _. omega arith;
  batches = λ before fd n e. absurd (cc);
}

abbrev small_build : Build
small_build = record build { arg_max = 4 }

abbrev copying : World
copying = record { calls = []; buffer = codes "cp a b" ++ (0 ∷ []); sigfd = pos 4; uring = ring }

unknown : (x : Builtin) → codes "cp" ≢ name_of x
unknown time e = omega (arith, ap key e)
unknown ls e = omega (arith, ap key e)
unknown cat e = omega (arith, ap key e)
unknown env e = omega (arith, ap key e)
unknown exit e = omega (arith, ap key e)
unknown usage e = omega (arith, ap key e)
unknown memrun e = omega (arith, ap key e)

process_command-crashed_iff_example :
    ((w' : World) × (process_command child_kernel small_build 9 [] 0 copying ≡ stopped crashed w'))
    ↔ (max_args small_build.arg_max ≤ 1 + length (words (codes "cp a b")))
process_command-crashed_iff_example =
    process_command-crashed_iff child_kernel small_build 9 [] child_kernel-Documented 0
      (codes "cp a b") copying (codes "cp") (codes "a" ∷ codes "b" ∷ []) (ground arith) refl unknown
      (omega arith) refl
