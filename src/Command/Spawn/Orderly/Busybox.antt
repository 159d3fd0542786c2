-- ===== src/Command/Spawn/Orderly/Busybox.antt =====
-- init/command.c: busybox does not crash, in the parent whatever the line, in the child where the
-- vector has room for the words.
use mathlib.Core.Path.{subst}
use minlinux.Command.Args.Laws.{HasArgs}
use minlinux.Base.{
  ℕ, zero, suc, ◌+◌, ◌≤◌, ◌<◌, ◌≡◌, refl, sym, Option, some, List, [], ◌∷◌, arith, length, codes,
  set,
}
use minlinux.Base.Int.{ℤ, pos, negsuc, to_u64_small}
use minlinux.Memory.{ok}
use minlinux.Memory.Text.{HasText}
use minlinux.System.{Kernel, World, record_call}
use minlinux.System.Abi.{Call, Constant, flags}
use minlinux.System.Wrappers
use minlinux.System.Wrappers.{Text}
use minlinux.System.Print.{Build}
use minlinux.System.Orderly.{
  Orderly, goes_on, Anyhow, anyhow, and_then-Orderly, write_int-Orderly, write_err-Orderly,
}
use minlinux.Command.Scan.Laws.{find_arg-Finds}
use minlinux.Command.Words.{words}
use minlinux.Command.Scan.{find_arg}
use minlinux.Command.Args.{max_args}
use minlinux.Command.Documented.{Documented}
use minlinux.Command.Builtins.{field}
use minlinux.Command.Spawn.Prepared.{texts_of_lem, prepared}
use minlinux.Command.Spawn.Parent.{found_or_none}
use minlinux.Command.Spawn.{fresh_args, busybox_child, busybox_parent, busybox_fork, busybox}
use minlinux.Command.Spawn.Orderly.{
  checked-Orderly, fill_from-Orderly, open_console-Orderly, exec-Orderly,
}

module _ (k : Kernel) (b : Build) (d : Documented k) where
  busybox_parent-Orderly : (tid : ℤ) (w : World) → Orderly Anyhow (busybox_parent k b tid w)
  unfolding busybox_parent
  busybox_parent-Orderly tid w =
      let waits = Wrappers.waitid Constant.p_pid tid (Constant.wexited ∷ []) in
      and_then-Orderly (checked-Orderly k b d (codes ":219") waits w refl) (λ _ w1 _.
        and_then-Orderly
          (write_int-Orderly k _ _
            (to_u64_small (field 1 (k.fields w.calls waits)) (d.fields w.calls waits 1)) refl)
          (λ _ w2 _. goes_on tt))

  -- The child of busybox, with the name of a command, and behind its terminator a place from which
  -- `s` is the rest of the line.
  module _ (command next : ℕ) (name s : Text) (w : World) (named : HasText w.buffer command name)
      (apart : command + length name ≤ next) (text : HasText w.buffer next s) where
    busybox_child-Orderly :
        (few : 2 + length (words s) < max_args b.arg_max)
        → (calls : List Call)
        → let p = prepared b.arg_max command next w.buffer name s named apart text few in
          Orderly Anyhow (busybox_child k b command p.0 (record w { calls = calls }))
    unfolding busybox_child
    busybox_child-Orderly few calls =
        let (next', found, p) =
          prepared b.arg_max command next w.buffer name s named apart text few in
        and_then-Orderly
          (fill_from-Orderly k b d 2 (set (fresh_args k b) 1 (some command)) next'
            (record w { calls = calls }) p.result p.returns)
          (λ cells w1 (same, line).
            and_then-Orderly
              (open_console-Orderly k b d (codes ":240") (codes ":241") (codes ":242") w1 line)
              (λ _ w2 line2.
                let here = flags (Constant.at_fdcwd ∷ []) in
                let e : 1 + suc (length (words s)) ≡ 2 + length (words s) = omega arith in
                let filled =
                  subst (λ m. HasArgs p.result.args m 1 (name ∷ words s)) (sym line2) p.filled in
                rw same (
                  rw (texts_of_lem w2 p.result.args 1 (name ∷ words s) filled (rw e (p.closed)))
                    (exec-Orderly k b d (codes ":251") here (codes "/busybox") _ [] w2))))

    -- A child begins only where its vector has room for the words.
    pub busybox-Orderly :
        ((before : List Call)
          → k.rax before (Wrappers.clone3 Constant.sigchld) ≡ pos 0
          → 2 + length (words s) < max_args b.arg_max)
        → Orderly Anyhow (busybox k b command next w)
    unfolding busybox
    busybox-Orderly fits =
        let forks = Wrappers.clone3 Constant.sigchld in
        let (next', found) = found_or_none (find_arg-Finds w.buffer next s text) in
        rw found (forked next' found (k.rax w.calls forks) refl)
      where
        forked :
            (next' : Option ℕ)
            → find_arg w.buffer next ≡ ok next'
            → (tid : ℤ) → k.rax w.calls (Wrappers.clone3 Constant.sigchld) ≡ tid
            → Orderly Anyhow (
                busybox_fork k b tid command next'
                  (record_call (Wrappers.clone3 Constant.sigchld) w))
        forked next' found (pos zero) e =
            let few = fits w.calls e in
            let p = prepared b.arg_max command next w.buffer name s named apart text few in
            let same : p.0 ≡ next' = cc (p.1) in
            rw (← same) (busybox_child-Orderly few (Wrappers.clone3 Constant.sigchld ∷ w.calls))
        forked next' found (pos (suc n)) e = busybox_parent-Orderly (pos (suc n)) _
        forked next' found (negsuc n) e = anyhow (
            write_err-Orderly k (codes "clone3 error") (negsuc n) _
              (rw e at (d.wide w.calls (Wrappers.clone3 Constant.sigchld))) refl)
