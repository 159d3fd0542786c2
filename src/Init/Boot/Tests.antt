-- ===== src/Init/Boot/Tests.antt =====
-- The theorems about the event loop at a kernel that keeps the contract of io_uring.
use minlinux.Base.{ℕ, ◌≤◌, List, length, ◌≡◌, refl, some, [], ◌∷◌, ◌++◌, arith, replicate}
use minlinux.Base.Int.{pos}
use minlinux.Uring.Complete.{IsCqValid, completions}
use minlinux.Uring.Protocol.{complete}
use minlinux.Uring.Arrive.{completions-complete}
use minlinux.Uring.Wait.{Alive}
use minlinux.Uring.Tally.{IsCqValid-same}
use minlinux.System.{World}
use minlinux.System.Frame.{Kept}
use minlinux.Command.Dispatch.{process_command}
use minlinux.Command.Dispatch.Frame.{process_command-Kept}
use minlinux.Init.{event_console_read, prompt_sqe, read_sqe, signal_sqe, loop_round}
use minlinux.Init.Safe.{Safe}
use minlinux.Init.Handlers.{console_Asks}
use minlinux.Init.Rounds.{Ready, loop_round-Safe}
use minlinux.Init.Samples.{build, ring}
use minlinux.Init.Boot.Obliging.{
  byte_read, pending, fresh, obliging, obliging-Contract, obliging-Documented,
}
use minlinux.Init.Session.{Within}
use minlinux.Init.Session.Waited.{Listens}
use minlinux.Init.Session.Progress.{completed-Within}
use minlinux.Uring.Protocol.{cq_apart}
use minlinux.Uring.Valid.{IsValid}
use minlinux.Uring.{Uring, Sqe, Cqe}
use minlinux.Uring.Calls.{enter_call}
use minlinux.System.Abi.{Call}
use minlinux.Init.Boot.Typing.{line, typing, typed, typing-Contract, typing-Console}
use minlinux.Init.Boot.Session.{Started, start-Started}
use minlinux.Init.Boot.Orderly.{Confined, start-Confined}
use minlinux.Init.Boot.{start}
use minlinux.Init.Boot.Safe.{start-Safe}

-- The first line is `x`, which names no built-in command.
abbrev booting : World
booting = record {
  calls = [];
  buffer = b'x' ∷ b'\n' ∷ replicate 1022 0;
  sigfd = pos 0;
  uring = ring;
}

start-Safe_example : Safe obliging build 9 [] (λ _. ⊥) (start obliging build 9 [] 3 booting)
start-Safe_example =
    start-Safe 4 5 obliging build 9 [] pending obliging-Contract (omega arith) 3 booting refl refl

start-Confined_example : Confined obliging build 9 [] (start obliging build 9 [] 3 booting)
start-Confined_example =
    start-Confined 4 5 obliging build 9 [] pending obliging-Contract (omega arith)
      obliging-Documented 3 booting refl refl

start-Started_example : Started typing build 9 [] typed booting (start typing build 9 [] 3 booting)
start-Started_example =
    start-Started 4 5 typing build 9 [] pending typing-Contract (omega arith) typed typing-Console 3
      booting refl refl

-- The head of the loop after `init`: the prompt and both reads are in the ring.
abbrev listening : World
listening = record booting {
  uring = record fresh {
    sqes = prompt_sqe ∷ read_sqe ∷ signal_sqe build (pos 5) ∷ replicate 13 prompt_sqe;
    sq_list_tail = 3;
  };
}

fresh-IsCqValid : IsCqValid 5 fresh
fresh-IsCqValid = record {
  order = omega arith;
  mask = refl;
  size = refl;
  head_small = omega arith;
  tail_small = omega arith;
  fits = omega arith;
}

-- A fresh ring in which some entries are taken.
taken-IsValid :
    (sqes : List Sqe) (n : ℕ)
    → length sqes ≡ 16
    → n ≤ 16
    → IsValid 4 (record fresh { sqes = sqes; sq_list_tail = n })
taken-IsValid sqes n size few = record {
  order = omega arith;
  entries = refl;
  mask = refl;
  array_size = refl;
  sqes_size = size;
  head_small = omega arith;
  tail_small = omega arith;
  list_tail_small = omega arith;
  joined = refl;
  fits = omega arith;
  aligned = λ j less. absurd (omega arith);
}

listening-Alive : Alive 4 5 event_console_read 1024 pending listening
listening-Alive = record {
  valid = taken-IsValid listening.uring.sqes 3 refl (omega arith);
  cq_valid = IsCqValid-same 5 fresh listening.uring (refl, refl, refl, refl) fresh-IsCqValid;
  sound = tt;
  asked = (console_Asks.0, (console_Asks.1.0, ((λ e. absurd (omega (arith, e))), tt)));
  line = refl;
}

loop_round-Safe_example :
    Safe obliging build 9 [] (Ready 4 5 pending) (loop_round obliging build 9 [] listening)
loop_round-Safe_example =
    loop_round-Safe 4 5 obliging build 9 [] pending obliging-Contract (omega arith) listening
      (record { alive = listening-Alive; one_read = refl; one_signal = refl })

process_command-Kept_example : Kept booting (process_command obliging build 9 [] 0 booting)
process_command-Kept_example = process_command-Kept obliging build 9 [] 0 booting

completions-complete_example :
    completions 5 (complete 5 fresh (byte_read 2))
    ≡ completions 5 fresh ++ (some (byte_read 2) ∷ [])
completions-complete_example =
    completions-complete 5 fresh (byte_read 2) fresh-IsCqValid (omega arith)

-- A read that the kernel has completed, behind the prompt; the signals are asked for in the ring.
abbrev read_call : Call
read_call = enter_call (record fresh { sqes = read_sqe ∷ replicate 15 prompt_sqe; sq_tail = 1 }) 1 1

abbrev signals_asked : Uring
signals_asked = record fresh {
  sqes = signal_sqe build (pos 5) ∷ replicate 15 prompt_sqe;
  sq_list_tail = 1;
}

abbrev answered_reads : List Cqe
answered_reads = byte_read 2 ∷ byte_read 0 ∷ replicate 30 (byte_read 0)

abbrev line_read : World
line_read = record booting {
  calls = read_call ∷ [];
  uring = record signals_asked { cqes = answered_reads; cq_head = 0; cq_tail = 2 };
}

line_read-Listens : Listens 4 5 typing pending typed [] (line ∷ []) line_read
line_read-Listens = record {
  ready = record {
    alive = record {
      valid =
          cq_apart 4 signals_asked answered_reads 0 2
            (taken-IsValid signals_asked.sqes 1 refl (omega arith));
      cq_valid = record {
        order = omega arith;
        mask = refl;
        size = refl;
        head_small = omega arith;
        tail_small = omega arith;
        fits = omega arith;
      };
      sound = ((omega arith, λ _. omega arith), ((omega arith, λ _. omega arith), tt));
      asked = ((λ e. absurd (omega (arith, e))), ((λ _. omega arith), tt));
      line = refl;
    };
    one_read = refl;
    one_signal = refl;
  };
  unread = refl;
  begins = refl;
  so_far = refl;
}

completed-Within_example : Within typing build 9 [] line 2 line_read
completed-Within_example =
    completed-Within 4 5 typing build 9 [] pending typing-Contract (omega arith) typed
      typing-Console (some (byte_read 2) ∷ []) [] (byte_read 0) [] line line_read line_read-Listens
      refl refl
