-- ===== src/Init.antt =====
-- init/init.c: the event loop of the init program.
pub mod Entry
pub mod Prompt
pub mod Input
pub mod Boot
pub mod Safe
pub mod Handlers
pub mod Rounds
pub mod Session
pub mod Samples
mod Tests
use minlinux.Base.{
  ℕ, zero, suc, ◌+◌, ◌-◌, Bool, true, false, Option, none, some, List, [], ◌∷◌, ◌++◌, if◌then◌else◌,
  ◌==◌, codes, length, set,
}
use minlinux.Base.Int.{ℤ, pos, negsuc}
use minlinux.Memory.{load, store}
use minlinux.Uring.{
  Uring, Sqe, Cqe, ioring_op_read, ioring_op_write, io_link, prompt_text, console_buffer,
  signal_info, uring_new_submission, uring_result, uring_advance, fill,
}
use minlinux.System.{
  Kernel, World, Program, Unit0, crashed, no_fuel, stop, syscall, run, gets, modify, ◌>>=◌, ◌>>◌,
  skip,
}
use minlinux.System.Wrappers.{Text}
use minlinux.System.Print.{Build, stdin, stdout, write_str, syscheck, err_exit}
use minlinux.Uring.Calls.{uring_wait}
use minlinux.Command.Dispatch.{process_command}

-- `EVENT_CONSOLE_READ`, `EVENT_SIGNAL` and `EVENT_OTHER`
abbrev pub event_console_read : ℕ
event_console_read = 0

abbrev pub event_signal : ℕ
event_signal = 1

abbrev pub event_other : ℕ
event_other = 2

-- Takes a submission and writes its fields; through NULL that is a crash.
abbrev pub fill_new : Sqe → Option ℕ → Program Unit0
fill_new e none = stop crashed
fill_new e (some i) = modify (λ w. record w { uring = fill w.uring i e })

abbrev pub submit : Sqe → Program Unit0
submit e = do
  before ← gets (λ w. w.uring)
  let taken = uring_new_submission before
  modify (λ w. record w { uring = taken.1 })
  fill_new e taken.0

abbrev pub prompt : Text
prompt = codes "Command: "

abbrev pub prompt_sqe : Sqe
prompt_sqe = record {
  opcode = ioring_op_write;
  fd = stdout;
  addr = prompt_text;
  len = length prompt;
  flags = io_link ∷ [];
  ioprio = 0;
  user_data = event_other;
}

-- `sizeof(buffer)` is 1024.
abbrev pub read_sqe : Sqe
read_sqe = record {
  opcode = ioring_op_read;
  fd = stdin;
  addr = console_buffer;
  len = 1024;
  flags = [];
  ioprio = 0;
  user_data = event_console_read;
}

unfoldable pub create_console_prompt : Program Unit0
create_console_prompt = submit prompt_sqe >> submit read_sqe

abbrev pub signal_sqe : Build → ℤ → Sqe
signal_sqe b sigfd = record {
  opcode = ioring_op_read;
  fd = sigfd;
  addr = signal_info;
  len = b.sizeof_siginfo;
  flags = [];
  ioprio = 0;
  user_data = event_signal;
}

unfoldable pub submit_sig_listen : Build → Program Unit0
submit_sig_listen b = do sigfd ← gets (λ w. w.sigfd); submit (signal_sqe b sigfd)

-- The body is a comment in the source.
pub process_signal : Program Unit0
process_signal = skip

module _ (k : Kernel) (b : Build) (fuel : ℕ) (envp : List Text) where
  -- `buffer[last_index] = '\0'`, and the command.
  abbrev pub run_line : ℕ → Program Unit0
  run_line last_index = do
    line ← gets (λ w. w.buffer)
    line' ← run (store line last_index 0)
    modify (λ w. record w { buffer = line' })
    process_command k b fuel envp 0

  -- What is done with a completed read of `res` bytes.
  unfoldable pub process_input : ℤ → Program Unit0
  unfolding create_console_prompt
  process_input (pos zero) = err_exit k (b.init_c ++ codes ":152") (codes "End of console input.\n")
  process_input (negsuc n) = err_exit k (b.init_c ++ codes ":154") (codes "Error reading file.\n")
  process_input (pos (suc last_index)) = do
    line ← gets (λ w. w.buffer)
    c ← run (load line last_index)
    if c == 10 then run_line last_index else write_str k (codes "No end of line.\n")
    create_console_prompt

  pub handle : Cqe → Program Unit0
  unfolding process_input submit_sig_listen process_signal
  handle cqe =
      if cqe.user_data == event_console_read
      then process_input cqe.res
      else if cqe.user_data == event_signal
      then process_signal >> submit_sig_listen b
      else if cqe.user_data == event_other
      then syscheck k (b.init_c ++ codes ":123") cqe.res >> skip
      else skip

  handle_result : Option ℕ → Program Unit0
  unfolding handle
  handle_result none = skip
  handle_result (some i) = do
    uring ← gets (λ w. w.uring)
    cqe ← run (load uring.cqes i)
    handle cqe
    modify (λ w. record w { uring = uring_advance w.uring })

  -- One round of `while (true)` in `start`.
  pub loop_round : Program Unit0
  unfolding handle_result
  loop_round = do uring_wait k b 1; result ← gets (λ w. uring_result w.uring); handle_result result
