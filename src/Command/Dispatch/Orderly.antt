-- ===== src/Command/Dispatch/Orderly.antt =====
-- init/command.c: process_command does not crash.
use minlinux.Base.{
  ℕ, suc, ◌+◌, ◌≤◌, ◌<◌, ◌≡◌, ◌≢◌, ap, Bool, true, false, List, [], ◌∷◌, ◌++◌, All, arith, length,
  if◌then◌else◌,
}
use minlinux.Base.Int.{pos}
use minlinux.Memory.Text.{HasText, HasText_front}
use minlinux.System.{Kernel, World}
use minlinux.System.Abi.{Call, Constant}
use minlinux.System.Wrappers
use minlinux.System.Wrappers.{Text}
use minlinux.System.Print.{Build}
use minlinux.System.Orderly.{Orderly, goes_on, Anyhow}
use minlinux.Command.Scan.Laws.{streq_lem, no_word, word, find_arg-Finds, terminate_arg-Cuts}
use minlinux.Command.Words.{words, lead, behind, words-behind}
use minlinux.Command.Args.{max_args}
use minlinux.Command.Documented.{Documented}
use minlinux.Command.Builtins.Orderly.{
  cmd_time-Orderly, cmd_cat-Orderly, cmd_env-Orderly, cmd_exit-Orderly, cmd_usage-Orderly,
}
use minlinux.Command.Listing.Orderly.{cmd_ls-Orderly}
use minlinux.Command.Spawn.Orderly.Memrun.{cmd_memrun-Orderly}
use minlinux.Command.Spawn.Orderly.Busybox.{busybox-Orderly}
use minlinux.Command.Dispatch.{
  Builtin, time, ls, cat, env, exit, usage, memrun, builtins, call_builtin, try_builtins,
  process_command,
}

-- A child begins only where its vector has room for a line of so many words and two more cells.
abbrev pub HasRoom : Kernel → Build → ℕ → Type 0
HasRoom k b n =
    (before : List Call)
    → k.rax before (Wrappers.clone3 Constant.sigchld) ≡ pos 0
    → 1 + n < max_args b.arg_max

-- The names of a table are strings.
abbrev AreNames : List (Text × Builtin) → Type 0
AreNames = All (λ e. All (λ c. c ≢ 0) e.0)

builtins-AreNames : AreNames builtins
builtins-AreNames = ground arith

module _ (k : Kernel) (b : Build) (fuel : ℕ) (envp : List Text) (d : Documented k) where
  module _ (prog next : ℕ) (name s : Text) (w : World) (named : HasText w.buffer prog name)
      (apart : prog + length name ≤ next) (text : HasText w.buffer next s)
      (room : HasRoom k b (suc (length (words s)))) where
    call_builtin-Orderly : (x : Builtin) → Orderly Anyhow (call_builtin k b fuel envp x next w)
    unfolding call_builtin
    call_builtin-Orderly time = cmd_time-Orderly k b d w
    call_builtin-Orderly ls = cmd_ls-Orderly k d fuel next s w text
    call_builtin-Orderly cat = cmd_cat-Orderly k b d fuel next s w text
    call_builtin-Orderly env = cmd_env-Orderly k b envp w
    call_builtin-Orderly exit = cmd_exit-Orderly k b w
    call_builtin-Orderly usage = cmd_usage-Orderly k b d w
    call_builtin-Orderly memrun =
        cmd_memrun-Orderly k b d next s w text (λ before e. omega (arith, room before e))

    try_builtins-Orderly :
        (table : List (Text × Builtin))
        → AreNames table
        → Orderly Anyhow (try_builtins k b fuel envp table prog next w)
    unfolding try_builtins
    try_builtins-Orderly [] h =
        busybox-Orderly k b d prog next name s w named apart text
          (λ before e. omega (arith, room before e))
    try_builtins-Orderly ((entry, x) ∷ rest) (letters, h) =
        let (same, ran, _) =
          streq_lem w.buffer prog (entry ++ (0 ∷ [])) 0 name entry named
            (HasText_front entry [] letters) in
        rw ran (chosen same (call_builtin-Orderly x) (try_builtins-Orderly rest h))
      where
        chosen :
            (same : Bool)
            → Orderly Anyhow (call_builtin k b fuel envp x next w)
            → Orderly Anyhow (try_builtins k b fuel envp rest prog next w)
            → Orderly Anyhow (
                (if same
                    then call_builtin k b fuel envp x next
                    else try_builtins k b fuel envp rest prog next)
                  w)
        chosen true found onward = found
        chosen false found onward = onward

  -- process_command of a line, with a kernel that answers as documented, never crashes: not in a
  -- process in which clone3 answers no 0, however long the line, and not in a child that clone3
  -- begins either, if the line has fewer words than MAX_ARGS less 1; whatever calls fail.
  pub process_command-Orderly :
      (args : ℕ) (s : Text) (w : World)
      → HasText w.buffer args s
      → HasRoom k b (length (words s))
      → Orderly Anyhow (process_command k b fuel envp args w)
  unfolding process_command
  process_command-Orderly args s w text room = elim (find_arg-Finds w.buffer args s text) [
    | no_word found none_there ↦ rw found (goes_on tt)
    | word prog rest found onward there some_letter ws ↦
        let cut = terminate_arg-Cuts w.buffer prog rest there in
        let fits : HasRoom k b (suc (length (words (behind rest)))) = λ before e.
          omega
            (arith, room before e, ap (λ l. length l) ws, ap (λ l. length l) (words-behind rest)) in
        rw (found, cut.returns)
          (try_builtins-Orderly prog cut.next (lead rest) (behind rest)
            (record w { buffer = cut.out }) cut.word cut.onward cut.rest fits builtins
            builtins-AreNames)
  ]
