-- ===== src/Init/Input.antt =====
-- init/init.c: what process_input does with a completed read of the console.
use minlinux.Base.{
  codes, ◌<◌, ℕ, suc, ◌+◌, ◌^◌, ◌≤◌, ◌≡◌, ◌≢◌, refl, some, List, [], ◌∷◌, ◌++◌, All, length, ap,
  get_elem?, set,
}
use minlinux.Base.Int.{pos}
use minlinux.Memory.{Memory, load, store, ok}
use minlinux.Memory.Text.{HasText, HasText_front}
use minlinux.Uring.Valid.{IsValid}
use minlinux.Command.Words.{words, lead, behind}
use minlinux.Command.Dispatch.{Builtin, call_builtin, process_command}
use minlinux.Command.Dispatch.Laws.{name_of, Runs, nothing, program, process_command-Runs}
use minlinux.System.{Program, Kernel, World, Outcome, Unit0, and_then}
use minlinux.Command.Spawn.{busybox}
use minlinux.Command.Spawn.Exec.{Executes}
use minlinux.Command.Dispatch.Child.{process_command-Executes}
use minlinux.Command.Args.{max_args}
use minlinux.System.Abi.{Call, Constant}
use minlinux.System.Wrappers
use minlinux.System.Wrappers.{Text}
use minlinux.System.Print.{Build}
use minlinux.Init.{process_input, create_console_prompt, prompt_sqe, read_sqe}
use minlinux.Init.Prompt.{used, Queues, create_console_prompt-Queues}

abbrev Letters : Text → Type 0
Letters = All (λ c. c ≢ 0)

reads_newline : (s rest : List ℕ) (c : ℕ) → get_elem? (s ++ (c ∷ rest)) (length s) ≡ some c
reads_newline [] rest c = refl
reads_newline (x ∷ s) rest c = reads_newline s rest c

writes_newline : (s rest : List ℕ) (c d : ℕ) → set (s ++ (c ∷ rest)) (length s) d ≡ s ++ (d ∷ rest)
writes_newline [] rest c d = refl
writes_newline (x ∷ s) rest c d = ap (λ l. x ∷ l) (writes_newline s rest c d)

pub load_newline : (s rest : List ℕ) (c : ℕ) → load (s ++ (c ∷ rest)) (length s) ≡ ok c
load_newline s rest c = rw (reads_newline s rest c)

store_newline :
    (s rest : List ℕ) (c d : ℕ) → store (s ++ (c ∷ rest)) (length s) d ≡ ok (s ++ (d ∷ rest))
store_newline s rest c d = rw (reads_newline s rest c, writes_newline s rest c d)

-- The world with the line in the buffer ended by a terminator.
abbrev pub ended : List ℕ → List ℕ → World → World
ended s rest w = record w { buffer = s ++ (0 ∷ rest) }

module _ (k : Kernel) (b : Build) (fuel : ℕ) (envp : List Text) (s rest : List ℕ) (w : World)
    (typed : w.buffer ≡ s ++ (b'\n' ∷ rest)) where
  pub runs_line :
      process_input k b fuel envp (pos (suc (length s))) w
      ≡ and_then (process_command k b fuel envp 0 (ended s rest w)) (λ _. create_console_prompt)
  unfolding process_input
  runs_line = rw (typed, load_newline s rest b'\n', store_newline s rest b'\n' 0)

module _ (k : Kernel) (b : Build) (fuel : ℕ) (envp : List Text) (s rest : List ℕ) (w : World)
    (letters : Letters s) (typed : w.buffer ≡ s ++ (b'\n' ∷ rest)) where
  -- A line of bytes other than 0, whose newline is the last byte of the read, and that has no
  -- word: with two entries of a well-formed ring free, process_input only ends it by a terminator
  -- and puts the next prompt and read into the ring.
  pub process_input_blank :
      (order : ℕ)
      → words s ≡ []
      → IsValid order w.uring
      → used order w.uring + 2 ≤ 2 ^ order
      → Queues order
          (ended s rest w)
          (some prompt_sqe ∷ some read_sqe ∷ [])
          (process_input k b fuel envp (pos (suc (length s))) w)
  process_input_blank order blank v room =
      elim (process_command-Runs k b fuel envp 0 s (ended s rest w)
        (HasText_front s rest letters)) [
          | nothing none_there returns ↦
              rw (runs_line k b fuel envp s rest w typed, returns)
                (create_console_prompt-Queues order (ended s rest w) v room)
          | program prog next more line parts _ _ _ _ _ ↦ absurd (cc)
        ]

-- A program that ran `action` with the words `args` of the line left at `next`, then the prompt.
pub record Calls (args : List Text) (action : ℕ → Program Unit0) (w : World) (run : Outcome Unit0)
    : Type 0 where
  pub next : ℕ
  pub left : Text
  pub line : Memory
  pub text : HasText line next left
  pub holds : words left ≡ args
  pub returns :
      run ≡ and_then (action next (record w { buffer = line })) (λ _. create_console_prompt)

-- `prog` is the name of the program in the line.
pub record CallsBusybox (k : Kernel) (b : Build) (name : Text) (args : List Text) (w : World)
    (run : Outcome Unit0) : Type 0 where
  pub prog : ℕ
  pub next : ℕ
  pub left : Text
  pub line : Memory
  pub named : HasText line prog name
  pub text : HasText line next left
  pub holds : words left ≡ args
  pub returns :
      run
      ≡ and_then (busybox k b prog next (record w { buffer = line })) (λ _. create_console_prompt)

module _ (k : Kernel) (b : Build) (fuel : ℕ) (envp : List Text) (s rest : List ℕ) (w : World)
    (letters : Letters s) (typed : w.buffer ≡ s ++ (b'\n' ∷ rest)) (args : List Text) where
  abbrev entered : Outcome Unit0
  entered = process_input k b fuel envp (pos (suc (length s))) w

  line_Runs : Runs k b fuel envp 0 s (ended s rest w)
  line_Runs = process_command-Runs k b fuel envp 0 s (ended s rest w) (HasText_front s rest letters)

  -- A line of bytes other than 0, whose newline is the last byte of the read, and whose first word
  -- names a built-in command, between and behind any spaces and tabs: process_input runs that
  -- command on the words behind its name and, if it returns, puts the next prompt and read into
  -- the ring.
  pub process_input_builtin :
      (x : Builtin)
      → words s ≡ name_of x ∷ args
      → Calls args (call_builtin k b fuel envp x) w entered
  process_input_builtin x split = elim line_Runs [
    | nothing none_there returns ↦ absurd (cc)
    | program prog next more line parts named _ text runs _ ↦ record {
      next = next;
      left = behind more;
      line = line;
      text = text;
      holds = (cc);
      returns = rw (runs_line k b fuel envp s rest w typed, runs x (cc)) refl;
    }
  ]

  -- A line of bytes other than 0, whose newline is the last byte of the read, and whose first word
  -- names no built-in command: process_input runs busybox with that name and the words behind it
  -- and, if it returns, puts the next prompt and read into the ring.
  pub process_input_other :
      (name : Text)
      → words s ≡ name ∷ args
      → ((x : Builtin) → name ≢ name_of x)
      → CallsBusybox k b name args w entered
  process_input_other name split unknown = elim line_Runs [
    | nothing none_there returns ↦ absurd (cc)
    | program prog next more line parts named _ text _ runs ↦
        let e : lead more ≡ name = cc in
        record {
          prog = prog;
          next = next;
          left = behind more;
          line = line;
          named = rw e at named;
          text = text;
          holds = cc;
          returns = rw (runs_line k b fuel envp s rest w typed, runs (λ x same. unknown x (cc)));
        }
  ]

  -- A line of bytes other than 0, whose newline is the last byte of the read, whose first word names
  -- no built-in command, and of fewer words than MAX_ARGS less 1: in the child that clone3 begins,
  -- if all its calls succeed, process_input ends as /busybox with the arguments /busybox and the
  -- words of the line.
  pub process_input-Executes :
      ((before : List Call) (c : Call) → (n : ℕ) × (k.rax before c ≡ pos n))
      → (name : Text) → words s ≡ name ∷ args
      → ((x : Builtin) → name ≢ name_of x)
      → 1 + length (words s) < max_args b.arg_max
      → k.rax w.calls (Wrappers.clone3 Constant.sigchld) ≡ pos 0
      → Executes k (codes "/busybox" ∷ words s) w.calls entered
  process_input-Executes succeeds name split unknown few child =
      let e =
        process_command-Executes k b fuel envp succeeds 0 s (ended s rest w) name args
          (HasText_front s rest letters) split unknown few child in
      record {
        out = e.out;
        given = e.given;
        after = e.after;
        returns = rw (runs_line k b fuel envp s rest w typed, e.returns) refl;
        calls = e.calls;
      }
