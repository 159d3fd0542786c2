-- ===== src/Command/Spawn/Exec.antt =====
-- init/command.c: what the child of busybox executes, when its calls succeed.
use minlinux.Memory.{Memory}
use minlinux.Base.{
  Bool, true, false, ◌∙◌, ℕ, suc, ◌+◌, ◌≤◌, ◌<◌, ◌≡◌, refl, List, [], ◌∷◌, ◌++◌, arith, length,
  codes,
}
use minlinux.Base.Int.{ℤ, pos, negsuc}
use minlinux.Memory.Text.{HasText}
use minlinux.Command.Words.{Line, words}
use minlinux.Command.Args.{max_args}
use minlinux.Command.Spawn.{open_console, exec, busybox}
use minlinux.System.{Kernel, World, Outcome, returned, stopped, replaced, Unit0}
use minlinux.System.Abi.{Number, Call, Argument, Constant, flags, no_signals}
use minlinux.System.Wrappers
use minlinux.System.Wrappers.{Text}
use minlinux.System.Print.{Build, syscheck, write_err}
use minlinux.Command.Spawn.Prepared.{texts_of_lem, prepared}

abbrev pub is_exec : Number → Bool
is_exec Number.execveat = true
is_exec _ = false

abbrev pub console_in : Call
console_in = Wrappers.open_file (codes "/dev/console") (Constant.o_rdonly ∷ []) 0

abbrev pub console_out : Call
console_out =
    Wrappers.open_file (codes "/dev/console") (Constant.o_append ∷ Constant.o_wronly ∷ []) 0

-- The calls of a child that has opened its console, latest first: `out` is the descriptor that the
-- kernel gave.
abbrev pub console_calls : ℤ → List Call → List Call
console_calls out before =
    Wrappers.dup3 out 2 0 ∷ console_out ∷ console_in ∷ Wrappers.close_all_files ∷ before

-- `run` made the calls of a child behind those of `before`, with `argv` for the new program, and was
-- replaced by /busybox.
pub record Executes (k : Kernel) (argv : List Text) (before : List Call) (run : Outcome Unit0)
    : Type 0 where
  pub out : ℤ
  pub given :
      out
      ≡ k.rax
          (console_in ∷ Wrappers.close_all_files ∷ Wrappers.clone3 Constant.sigchld ∷ before)
          console_out
  pub after : World
  pub returns : run ≡ stopped replaced after
  pub calls :
      after.calls
      ≡ Wrappers.execveat (flags (Constant.at_fdcwd ∷ [])) (codes "/busybox") argv [] []
        ∷ Wrappers.sigprocmask Constant.sig_setmask no_signals
        ∷ console_calls out (Wrappers.clone3 Constant.sigchld ∷ before)

module _ (k : Kernel) (b : Build)
    (succeeds : (before : List Call) (c : Call)
      → is_exec c.number ≡ false
      → (n : ℕ) × (k.rax before c ≡ pos n)) where
  pub accepted :
      (place : Text) (before : List Call) (c : Call)
      → is_exec c.number ≡ false
      → (w : World) → syscheck k place (k.rax before c) w ≡ returned (k.rax before c) w
  unfolding syscheck
  accepted place before c quiet w = let (n, e) = succeeds before c quiet in rw e refl

  pub open_console_lem :
      (line1 line2 line3 : Text) (w : World)
      → open_console k b line1 line2 line3 w
        ≡ returned tt (record w {
          calls =
              console_calls
                (k.rax (console_in ∷ Wrappers.close_all_files ∷ w.calls) console_out)
                w.calls;
        })
  unfolding open_console
  open_console_lem line1 line2 line3 w =
      let c1 = console_in in
      let c2 = console_out in
      let before = Wrappers.close_all_files ∷ w.calls in
      let out = k.rax (c1 ∷ before) c2 in
      rw
        (
          accepted (b.command_c ++ line1) before c1 refl,
          accepted (b.command_c ++ line2) (c1 ∷ before) c2 refl,
          accepted (b.command_c ++ line3) (c2 ∷ c1 ∷ before) (Wrappers.dup3 out 2 0) refl,
        )
        refl

  abbrev pub mask : Call
  mask = Wrappers.sigprocmask Constant.sig_setmask no_signals

  module _ (line : Text) (dirfd : Argument) (name : Text) (args : List Text) (mode : List Constant)
      (w : World) (n : ℕ) where
    abbrev execs : Call
    execs = Wrappers.execveat dirfd name args [] mode

    pub exec_lem :
        k.rax (mask ∷ w.calls) execs ≡ pos n
        → exec k b line dirfd name args mode w
          ≡ stopped replaced (record w { calls = execs ∷ mask ∷ w.calls })
    unfolding exec
    exec_lem e = rw (accepted (b.command_c ++ line) w.calls mask refl, e) refl

    pub exec-fails :
        k.rax (mask ∷ w.calls) execs ≡ negsuc n
        → exec k b line dirfd name args mode w
          ≡ write_err k
              (codes "execveat returned ")
              (negsuc n)
              (record w { calls = execs ∷ mask ∷ w.calls })
    unfolding exec
    exec-fails e = rw (accepted (b.command_c ++ line) w.calls mask refl, e) refl

  module _ (command next : ℕ) (name : Text) (s : Line) (w : World)
      (named : HasText w.buffer command name) (apart : command + length name ≤ next)
      (text : HasText w.buffer next s) (few : 2 + length (words s) < max_args b.arg_max)
      (child : k.rax w.calls (Wrappers.clone3 Constant.sigchld) ≡ pos 0) where
    abbrev pub argv_of : List Text
    argv_of = codes "/busybox" ∷ name ∷ words s

    abbrev pub before_console : List Call
    before_console = Wrappers.clone3 Constant.sigchld ∷ w.calls

    abbrev pub given_out : ℤ
    given_out = k.rax (console_in ∷ Wrappers.close_all_files ∷ before_console) console_out

    -- The child up to the call of execveat.
    pub busybox-exec :
        (line : Memory) × (busybox k b command next w
          ≡ exec k b
              (codes ":251")
              (flags (Constant.at_fdcwd ∷ []))
              (codes "/busybox")
              argv_of
              []
              (record w { calls = console_calls given_out before_console; buffer = line }))
    unfolding busybox
    busybox-exec =
        let (next', found, p) =
          prepared b.arg_max command next w.buffer name s named apart text few in
        let w1 = record w { calls = before_console; buffer = p.result.line } in
        let w2 = record w1 { calls = console_calls given_out w1.calls } in
        let e : 1 + suc (length (words s)) ≡ 2 + length (words s) = omega arith in
        let argv = texts_of_lem w2 p.result.args 1 (name ∷ words s) p.filled (rw e (p.closed)) in
        (
          p.result.line,
          rw
              (
                found,
                child,
                p.returns,
                open_console_lem (codes ":240") (codes ":241") (codes ":242") w1,
                argv,
              )
              refl,
        )

module _ (k : Kernel) (b : Build)
    (succeeds : (before : List Call) (c : Call) → (n : ℕ) × (k.rax before c ≡ pos n)) where
  -- busybox, called with the name of a command in the console line and with the text `s` behind
  -- it, of fewer words than MAX_ARGS less 2: the child that clone3 begins, if all its calls succeed,
  -- closes its files, opens the console and is replaced by /busybox with the arguments /busybox, the
  -- name and the words of `s`.
  pub busybox-Executes :
      (command next : ℕ) (name : Text) (s : Line) (w : World)
      → HasText w.buffer command name
      → command + length name ≤ next
      → HasText w.buffer next s
      → 2 + length (words s) < max_args b.arg_max
      → k.rax w.calls (Wrappers.clone3 Constant.sigchld) ≡ pos 0
      → Executes k (codes "/busybox" ∷ name ∷ words s) w.calls (busybox k b command next w)
  busybox-Executes command next name s w named apart text few child =
      let quiet : (before : List Call) (c : Call)
          → is_exec c.number ≡ false
          → (n : ℕ) × (k.rax before c ≡ pos n) =
        λ before c _. succeeds before c in
      let here = flags (Constant.at_fdcwd ∷ []) in
      let args = argv_of k b quiet command next name s w named apart text few child in
      let out = given_out k b quiet command next name s w named apart text few child in
      let (line, e) = busybox-exec k b quiet command next name s w named apart text few child in
      let mask = Wrappers.sigprocmask Constant.sig_setmask no_signals in
      let w2 = record w {
        calls = console_calls out (Wrappers.clone3 Constant.sigchld ∷ w.calls);
        buffer = line;
      } in
      let execs = Wrappers.execveat here (codes "/busybox") args [] [] in
      let (n, done) = succeeds (mask ∷ w2.calls) execs in
      record {
        out = out;
        given = refl;
        after = record w2 { calls = execs ∷ mask ∷ w2.calls };
        returns = e ∙ exec_lem k b quiet (codes ":251") here (codes "/busybox") args [] w2 n done;
        calls = refl;
      }
