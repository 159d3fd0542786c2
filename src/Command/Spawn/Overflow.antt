-- ===== src/Command/Spawn/Overflow.antt =====
-- init/command.c: the child of busybox with more words than its vector has room for.
use minlinux.Base.{
  ℕ, ◌+◌, ◌-◌, ◌≤◌, ◌<◌, ◌≡◌, refl, ap, ◌∙◌, none, some, arith, length, length-set,
  length-replicate, set, replicate,
}
use minlinux.Base.Int.{pos}
use minlinux.Memory.Text.{HasText}
use minlinux.Command.Words.{Line, words}
use minlinux.Command.Scan.Laws.{no_word, word, find_arg-Finds}
use minlinux.Command.Args.{Vector, max_args}
use minlinux.Command.Args.Limits.{fill_args_overflow}
use minlinux.Command.Spawn.{busybox}
use minlinux.System.{Kernel, World, stopped, crashed, record_call}
use minlinux.System.Abi.{Constant}
use minlinux.System.Wrappers
use minlinux.System.Print.{Build}

pub busybox-crashed :
    (k : Kernel) (b : Build) (command next : ℕ) (s : Line) (w : World)
    → HasText w.buffer next s
    → 2 < max_args b.arg_max
    → max_args b.arg_max ≤ 2 + length (words s)
    → k.rax w.calls (Wrappers.clone3 Constant.sigchld) ≡ pos 0
    → busybox k b command next w
      ≡ stopped crashed (record_call (Wrappers.clone3 Constant.sigchld) w)
unfolding busybox
busybox-crashed k b command next s w text some_room many child =
    let most = max_args b.arg_max in
    let fresh : Vector = replicate most none in
    let size : length (set fresh 1 (some command)) ≡ most =
      length-set fresh 1 (some command) ∙ length-replicate most none in
    elim (find_arg-Finds w.buffer next s text) [
      | no_word found none_left ↦
          absurd (omega (arith, many, some_room, ap (λ l. length l) none_left))
      | word q rest found onward there some_letter ws ↦
          rw
            (
              found,
              child,
              fill_args_overflow b.arg_max (most - 2) 2 (set fresh 1 (some command)) q w.buffer rest
                  (omega arith) (omega (arith, some_room)) size there
                  (omega (arith, many, ap (λ l. length l) ws)),
            )
            refl
    ]
