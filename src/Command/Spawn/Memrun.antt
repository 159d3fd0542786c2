-- ===== src/Command/Spawn/Memrun.antt =====
-- init/command.c: what the child of memrun executes, when its calls succeed.
use minlinux.Base.{ℕ, ◌<◌, ◌≡◌, refl, false, some, List, [], ◌∷◌, ◌++◌, arith, length, codes}
use minlinux.Base.Int.{ℤ, pos}
use minlinux.Memory.Text.{HasText}
use minlinux.Command.Words.{Line, lead, split, behind}
use minlinux.Command.Scan.Laws.{terminate_arg-Cuts}
use minlinux.Command.Args.{max_args}
use minlinux.Command.Builtins.{field}
use minlinux.Command.Spawn.{memrun_path}
use minlinux.Command.Spawn.Prepared.{texts_of_lem, text_at_lem}
use minlinux.Command.Spawn.Vectored.{vectored}
use minlinux.Command.Spawn.Exec.{
  is_exec, console_in, console_out, console_calls, accepted, open_console_lem, exec_lem,
}
use minlinux.System.{Kernel, World, Outcome, stopped, replaced, Unit0}
use minlinux.System.Abi.{Call, Constant, int, no_signals}
use minlinux.System.Wrappers
use minlinux.System.Wrappers.{Text}
use minlinux.System.Print.{Build}

-- The arguments that memrun passes on: the path, the letters at the place behind its terminator,
-- which may be none, and the words behind them.
abbrev pub passed : Line → List Text
passed rest = lead rest ∷ lead (behind rest) ∷ (split (behind rest)).1

-- `run` made the calls of a child behind those of `before`: it copied the file `path` to a new file
-- in memory and was replaced by that, with `argv`.
pub record Loads (k : Kernel) (path : Text) (argv : List Text) (before : List Call)
    (run : Outcome Unit0) : Type 0 where
  pub out : ℤ
  pub memfd : ℤ
  pub infd : ℤ
  pub size : ℤ
  pub after : World
  pub out_given : out ≡ k.rax (console_in ∷ Wrappers.close_all_files ∷ before) console_out
  pub memfd_given : memfd ≡ k.rax (console_calls out before) (Wrappers.memfd_create 0)
  pub infd_given :
      infd
      ≡ k.rax
          (Wrappers.memfd_create 0 ∷ console_calls out before)
          (Wrappers.openat2 path (Constant.o_cloexec ∷ []))
  pub size_given :
      size
      ≡ field 0 (
          k.fields
            (Wrappers.openat2 path (Constant.o_cloexec ∷ [])
              ∷ Wrappers.memfd_create 0
              ∷ console_calls out before)
            (Wrappers.fstatat infd [] (Constant.at_empty_path ∷ [])))
  pub returns : run ≡ stopped replaced after
  pub calls :
      after.calls
      ≡ Wrappers.execveat (int memfd) [] argv [] (Constant.at_empty_path ∷ [])
        ∷ Wrappers.sigprocmask Constant.sig_setmask no_signals
        ∷ Wrappers.copy_file_range infd memfd size
        ∷ Wrappers.fstatat infd [] (Constant.at_empty_path ∷ [])
        ∷ Wrappers.openat2 path (Constant.o_cloexec ∷ [])
        ∷ Wrappers.memfd_create 0
        ∷ console_calls out before

module _ (k : Kernel) (b : Build)
    (succeeds : (before : List Call) (c : Call) → (n : ℕ) × (k.rax before c ≡ pos n)) where
  -- memrun, with the text `rest` at the place of the path, and room in the vector: the child that
  -- clone3 begins, if all its calls succeed, opens the file that the first word names, asks the
  -- kernel by one call to copy as many bytes as the file has to a file in memory, and is replaced
  -- by that file, whatever number of bytes the call says it copied. Its arguments are the path, the
  -- letters at the place behind the path's terminator, which are none where a second blank or the
  -- end of the line stands there, and the words behind.
  pub memrun_path-Loads :
      (path : ℕ) (rest : Line) (w : World)
      → HasText w.buffer path rest
      → length (passed rest) < max_args b.arg_max
      → k.rax w.calls (Wrappers.clone3 Constant.sigchld) ≡ pos 0
      → Loads k
          (lead rest)
          (passed rest)
          (Wrappers.clone3 Constant.sigchld ∷ w.calls)
          (memrun_path k b (some path) w)
  unfolding memrun_path
  memrun_path-Loads path rest w text few child =
      let quiet : (before : List Call) (c : Call)
          → is_exec c.number ≡ false
          → (n : ℕ) × (k.rax before c ≡ pos n) =
        λ before c _. succeeds before c in
      let cut = terminate_arg-Cuts w.buffer path rest text in
      let name = lead rest in
      let argv = passed rest in
      let v =
        vectored b.arg_max path cut.next cut.out name (behind rest) cut.word cut.onward cut.rest
          (omega (arith, few)) in
      let before = Wrappers.clone3 Constant.sigchld ∷ w.calls in
      let w1 = record w { calls = before; buffer = v.result.line } in
      let out = k.rax (console_in ∷ Wrappers.close_all_files ∷ before) console_out in
      let calls2 = console_calls out before in
      let create = Wrappers.memfd_create 0 in
      let memfd = k.rax calls2 create in
      let open_path = Wrappers.openat2 name (Constant.o_cloexec ∷ []) in
      let infd = k.rax (create ∷ calls2) open_path in
      let stat = Wrappers.fstatat infd [] (Constant.at_empty_path ∷ []) in
      let size = field 0 (k.fields (open_path ∷ create ∷ calls2) stat) in
      let copy = Wrappers.copy_file_range infd memfd size in
      let w3 = record w1 { calls = create ∷ calls2 } in
      let w4 = record w1 { calls = copy ∷ stat ∷ open_path ∷ create ∷ calls2 } in
      let mask = Wrappers.sigprocmask Constant.sig_setmask no_signals in
      let (n, done) =
        succeeds (mask ∷ w4.calls)
          (Wrappers.execveat (int memfd) [] argv [] (Constant.at_empty_path ∷ [])) in
      record {
        out = out;
        memfd = memfd;
        infd = infd;
        size = size;
        after = record w1 {
          calls =
              Wrappers.execveat (int memfd) [] argv [] (Constant.at_empty_path ∷ [])
              ∷ Wrappers.sigprocmask Constant.sig_setmask no_signals
              ∷ w4.calls;
        };
        out_given = refl;
        memfd_given = refl;
        infd_given = refl;
        size_given = refl;
        returns =
            rw
              (
                cut.returns,
                child,
                v.returns,
                open_console_lem k b quiet (codes ":174") (codes ":175") (codes ":176") w1,
                text_at_lem w3 path name v.named,
                accepted k b quiet (b.command_c ++ codes ":183") (create ∷ calls2) open_path refl,
                accepted k b quiet (b.command_c ++ codes ":187") (open_path ∷ create ∷ calls2) stat
                    refl,
                accepted k b quiet (b.command_c ++ codes ":191")
                    (stat ∷ open_path ∷ create ∷ calls2) copy refl,
                texts_of_lem w4 v.result.args 0 argv v.filled v.closed,
                exec_lem k b quiet (codes ":200") (int memfd) [] argv (Constant.at_empty_path ∷ [])
                    w4 n done,
              )
              refl;
        calls = refl;
      }
