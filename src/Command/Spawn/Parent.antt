-- ===== src/Command/Spawn/Parent.antt =====
-- init/command.c: what busybox does in the process that stays, from clone3 on.
pub mod Memrun
use minlinux.Base.{ℕ, zero, suc, ◌≡◌, refl, Option, none, some, List, [], ◌∷◌, ◌++◌, arith, codes}
use minlinux.Base.Int.{ℤ, pos, negsuc, IsInt64, of_u64, to_u64, to_u64_small}
use minlinux.Memory.{Memory, Run, ok}
use minlinux.Memory.Text.{HasText}
use minlinux.Util.Decimal.Numeral.{IsDecimal}
use minlinux.Command.Scan.Laws.{Finds, no_word, word, find_arg-Finds}
use minlinux.Command.Builtins.{field}
use minlinux.Command.Spawn.{busybox, busybox_fork, busybox_parent}
use minlinux.System.{Kernel, World, Outcome, returned, and_then, Unit0, record_call, ◌>>◌}
use minlinux.System.Abi.{Call, Constant}
use minlinux.System.Wrappers
use minlinux.System.Wrappers.{Text}
use minlinux.System.Print.{Build, stdout, write_str, write_int, syscheck}
use minlinux.System.Print.Laws.{write_int-Writes, Breaks, syscheck-Checks}

pub of_u64-to_u64 : (i : ℤ) → IsInt64 i → of_u64 (to_u64 i) ≡ i
of_u64-to_u64 (pos n) h = ground arith
of_u64-to_u64 (negsuc n) h = ground arith

pub found_or_none :
    {m : Memory} {p : ℕ} {s : List ℕ} {run : Run (Option ℕ)}
    → Finds m p s run
    → (next : Option ℕ) × (run ≡ ok next)
found_or_none (no_word found none_left) = (none, found)
found_or_none (word q rest found onward text some_letter ws) = (some q, found)

-- A run begun in `w` that made the calls `before` and then wrote the decimal notation of `i` and a
-- line end.
pub record Tells (before : List Call) (i : ℤ) (w : World) (run : Outcome Unit0) : Type 0 where
  pub notation : Text
  pub decimal : IsDecimal i notation
  pub returns :
      run
      ≡ returned tt (record w {
        calls = Wrappers.write stdout (codes "\n") ∷ Wrappers.write stdout notation ∷ before;
      })

abbrev pub wait_call : ℤ → Call
wait_call tid = Wrappers.waitid Constant.p_pid tid (Constant.wexited ∷ [])

module _ (k : Kernel) (b : Build) where
  pub number-Tells :
      (before : List Call) (i : ℤ) (w : World)
      → IsInt64 i
      → Tells before i w
          ((write_int k (to_u64 i) >> write_str k (codes "\n")) (record w { calls = before }))
  number-Tells before i w h =
      let p = write_int-Writes k (to_u64 i) (record w { calls = before }) (to_u64_small i h) in
      record {
        notation = p.notation;
        decimal = rw (of_u64-to_u64 i h) at (p.decimal);
        returns = rw (p.returns) refl;
      }

  -- What the parent of `tid` leaves: the status that waitid gave, written, or the end of init with
  -- the error of waitid.
  abbrev pub Waited : ℤ → World → ℤ → Outcome Unit0 → Type 0
  Waited tid w (pos n) run =
      Tells (Wrappers.write stdout (codes "Busybox exited with status ") ∷ wait_call tid ∷ w.calls)
        (field 1 (k.fields w.calls (wait_call tid))) w run
  Waited tid w (negsuc n) run =
      Breaks (b.command_c ++ codes ":219") (record_call (wait_call tid) w) run

  -- What busybox leaves in a process that got `tid` from clone3, but for the child.
  abbrev pub Attends : ℤ → World → Outcome Unit0 → Type 0
  Attends (pos zero) w run = Unit
  Attends (pos (suc n)) w run = Waited (pos (suc n)) w (k.rax w.calls (wait_call (pos (suc n)))) run
  Attends (negsuc n) w run =
      Tells
        (Wrappers.write stdout (codes ": ")
          ∷ Wrappers.write stdout (codes "clone3 error")
          ∷ w.calls)
        (negsuc n) w run

  module _ (wide : (before : List Call) (c : Call) → IsInt64 (k.rax before c))
      (status : (before : List Call) (c : Call) → IsInt64 (field 1 (k.fields before c))) where
    busybox_parent-Waited :
        (tid : ℤ) (w : World)
        → Waited tid w (k.rax w.calls (wait_call tid)) (busybox_parent k b tid w)
    unfolding busybox_parent
    busybox_parent-Waited tid w =
        answered (k.rax w.calls (wait_call tid)) (wide w.calls (wait_call tid))
      where
        answered :
            (res : ℤ)
            → IsInt64 res
            → Waited tid w res (
                and_then
                  (syscheck k (b.command_c ++ codes ":219") res (record_call (wait_call tid) w))
                  (λ _.
                    write_str k (codes "Busybox exited with status ")
                    >> (write_int k (to_u64 (field 1 (k.fields w.calls (wait_call tid))))
                        >> write_str k (codes "\n"))))
        answered (pos n) h =
            rw
              (syscheck-Checks k (b.command_c ++ codes ":219") (pos n)
                (record_call (wait_call tid) w) h)
              (number-Tells _ _ w (status w.calls (wait_call tid)))
        answered (negsuc n) h =
            rw
              (syscheck-Checks k (b.command_c ++ codes ":219") (negsuc n)
                (record_call (wait_call tid) w) h)
              refl

    busybox_fork-Attends :
        (tid : ℤ) (command : ℕ) (next : Option ℕ) (w : World)
        → IsInt64 tid
        → Attends tid w (busybox_fork k b tid command next w)
    unfolding busybox_fork
    busybox_fork-Attends (pos zero) command next w h = tt
    busybox_fork-Attends (pos (suc n)) command next w h = busybox_parent-Waited (pos (suc n)) w
    busybox_fork-Attends (negsuc n) command next w h = number-Tells _ (negsuc n) w h

    -- busybox, with a string behind the command's name and answers of 64 bits: in the parent, it
    -- waits for the child and writes the status that waitid gave, in decimal, and returns; if
    -- waitid fails it writes the place and comes to the text of the error, which has ended, so that
    -- what follows is undefined; and if clone3 fails it writes the error and returns.
    pub busybox-Attends :
        (command next : ℕ) (s : Text) (w : World)
        → HasText w.buffer next s
        → let w' = record_call (Wrappers.clone3 Constant.sigchld) w in
          Attends (k.rax w.calls (Wrappers.clone3 Constant.sigchld)) w' (busybox k b command next w)
    unfolding busybox
    busybox-Attends command next s w text =
        let c = Wrappers.clone3 Constant.sigchld in
        let (next', found) = found_or_none (find_arg-Finds w.buffer next s text) in
        rw found
          (busybox_fork-Attends (k.rax w.calls c) command next' (record_call c w) (wide w.calls c))
