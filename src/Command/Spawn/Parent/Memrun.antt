-- ===== src/Command/Spawn/Parent/Memrun.antt =====
-- init/command.c: what memrun does in the process that stays, from clone3 on.
use minlinux.Base.{ℕ, zero, suc, refl, some, List, ◌∷◌, ◌++◌, codes}
use minlinux.Base.Int.{ℤ, pos, negsuc, IsInt64, to_u64, to_u64_small}
use minlinux.Memory.{Memory}
use minlinux.Memory.Text.{HasText}
use minlinux.Util.Decimal.Numeral.{IsDecimal}
use minlinux.Command.Scan.Laws.{terminate_arg-Cuts}
use minlinux.Command.Words.{lead}
use minlinux.Command.Builtins.{field}
use minlinux.Command.Spawn.{memrun_path, memrun_fork, memrun_parent}
use minlinux.Command.Spawn.Parent.{Tells, wait_call, of_u64-to_u64, number-Tells}
use minlinux.System.{Kernel, World, Outcome, and_then, Unit0, record_call, ◌>>◌}
use minlinux.System.Abi.{Call, Constant}
use minlinux.System.Wrappers
use minlinux.System.Wrappers.{Text}
use minlinux.System.Print.{Build, stdout, write_str, write_int, syscheck}
use minlinux.System.Print.Laws.{write_int-Writes, Breaks, syscheck-Checks}

abbrev wrote : Text → Call
wrote t = Wrappers.write stdout t

-- A run begun in `w` that made the calls `before` and then reported the child's number and status.
pub record Reports (before : List Call) (pid status : ℤ) (w : World) (run : Outcome Unit0)
    : Type 0 where
  pub notation : Text
  pub decimal : IsDecimal pid notation
  pub tells :
      Tells
        (wrote (codes " exited with status ")
          ∷ wrote notation
          ∷ wrote (codes "Child process ")
          ∷ before)
        status
        w
        run

module _ (k : Kernel) (b : Build) where
  -- What the parent of `tid` leaves after waitid: the report, or the end of init with its error.
  abbrev pub Reaped : ℤ → List Call → World → ℤ → Outcome Unit0 → Type 0
  Reaped tid before w (pos n) run =
      Reports (wait_call tid ∷ before) (field 0 (k.fields before (wait_call tid)))
        (field 1 (k.fields before (wait_call tid))) w run
  Reaped tid before w (negsuc n) run =
      Breaks (b.command_c ++ codes ":153") (record w { calls = wait_call tid ∷ before }) run

  -- The number of the child is announced first.
  pub record Announces (tid : ℤ) (w : World) (run : Outcome Unit0) : Type 0 where
    pub number : Text
    pub decimal : IsDecimal tid number
    pub reaped :
        let before =
          wrote (codes "\n") ∷ wrote number ∷ wrote (codes "Forked process ") ∷ w.calls in
        Reaped tid before w (k.rax before (wait_call tid)) run

  -- What memrun leaves in a process that got `tid` from clone3, but for the child.
  abbrev pub MemrunAttends : ℤ → World → Outcome Unit0 → Type 0
  MemrunAttends (pos zero) w run = Unit
  MemrunAttends (pos (suc n)) w run = Announces (pos (suc n)) w run
  MemrunAttends (negsuc n) w run =
      Tells (wrote (codes ": ") ∷ wrote (codes "clone3 error") ∷ w.calls) (negsuc n) w run

  module _ (wide : (before : List Call) (c : Call) → IsInt64 (k.rax before c))
      (status : (before : List Call) (tid : ℤ) (i : ℕ)
        → IsInt64 (field i (k.fields before (wait_call tid)))) where
    report-Reports :
        (before : List Call) (pid code : ℤ) (w : World)
        → IsInt64 pid
        → IsInt64 code
        → Reports before pid code w (
            (write_str k (codes "Child process ")
                >> (write_int k (to_u64 pid)
                    >> (write_str k (codes " exited with status ")
                        >> (write_int k (to_u64 code) >> write_str k (codes "\n")))))
              (record w { calls = before }))
    report-Reports before pid code w h g =
        let p =
          write_int-Writes k (to_u64 pid)
            (record w { calls = wrote (codes "Child process ") ∷ before }) (to_u64_small pid h) in
        record {
          notation = p.notation;
          decimal = rw (of_u64-to_u64 pid h) at (p.decimal);
          tells = rw (p.returns) (number-Tells k b _ code w g);
        }

    report-Reaped :
        (tid : ℤ) (before : List Call) (w : World) (res : ℤ)
        → IsInt64 res
        → let c = wait_call tid in
          let fields = k.fields before c in
          Reaped tid before w res (
            and_then
              (syscheck k (b.command_c ++ codes ":153") res (record w { calls = c ∷ before }))
              (λ _.
                write_str k (codes "Child process ")
                >> (write_int k (to_u64 (field 0 fields))
                    >> (write_str k (codes " exited with status ")
                        >> (write_int k (to_u64 (field 1 fields)) >> write_str k (codes "\n"))))))
    report-Reaped tid before w (pos n) h =
        let c = wait_call tid in
        rw
          (syscheck-Checks k (b.command_c ++ codes ":153") (pos n) (record w { calls = c ∷ before })
            h)
          (report-Reports (c ∷ before) _ _ w (status before tid 0) (status before tid 1))
    report-Reaped tid before w (negsuc n) h =
        rw
          (syscheck-Checks k (b.command_c ++ codes ":153") (negsuc n)
            (record w { calls = wait_call tid ∷ before }) h)
          refl

    memrun_parent-Announces :
        (tid : ℤ) (w : World) → IsInt64 tid → Announces tid w (memrun_parent k b tid w)
    unfolding memrun_parent
    memrun_parent-Announces tid w h =
        let p =
          write_int-Writes k (to_u64 tid)
            (record w { calls = wrote (codes "Forked process ") ∷ w.calls }) (to_u64_small tid h) in
        let before =
          wrote (codes "\n") ∷ wrote p.notation ∷ wrote (codes "Forked process ") ∷ w.calls in
        record {
          number = p.notation;
          decimal = rw (of_u64-to_u64 tid h) at (p.decimal);
          reaped = rw (p.returns) (
              report-Reaped tid before w (k.rax before (wait_call tid))
                (wide before (wait_call tid)));
        }

    memrun_fork-Attends :
        (tid : ℤ) (path next : ℕ) (w : World)
        → IsInt64 tid
        → MemrunAttends tid w (memrun_fork k b tid path next w)
    unfolding memrun_fork
    memrun_fork-Attends (pos zero) path next w h = tt
    memrun_fork-Attends (pos (suc n)) path next w h = memrun_parent-Announces (pos (suc n)) w h
    memrun_fork-Attends (negsuc n) path next w h = number-Tells k b _ (negsuc n) w h

    -- memrun, with a string at the place of the path and answers of 64 bits: it ends the path by a
    -- terminator and calls clone3; in the parent, it writes the number of the child, waits for the
    -- child, writes the number and the status that waitid gave, all in decimal, and returns; if
    -- waitid fails it writes the place and comes to the text of the error, which has ended, so that
    -- what follows is undefined; and if clone3 fails it writes the error and returns.
    pub memrun_path-Attends :
        (path : ℕ) (s : Text) (w : World)
        → HasText w.buffer path s
        → let c = Wrappers.clone3 Constant.sigchld in
          (line : Memory) × HasText line path (lead s)
          × MemrunAttends
              (k.rax w.calls c)
              (record_call c (record w { buffer = line }))
              (memrun_path k b (some path) w)
    unfolding memrun_path
    memrun_path-Attends path s w text =
        let c = Wrappers.clone3 Constant.sigchld in
        let cut = terminate_arg-Cuts w.buffer path s text in
        let fork =
          memrun_fork-Attends (k.rax w.calls c) path cut.next
            (record_call c (record w { buffer = cut.out })) (wide w.calls c) in
        (cut.out, cut.word, rw (cut.returns) fork)
