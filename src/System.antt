-- ===== src/System.antt =====
-- The program's side of the system call interface: include/minlinux/syscall.h and the macros of
-- include/minlinux/util.h. A call is its number with its arguments; what the kernel answers is a
-- parameter, any function of the calls made so far.
pub mod Abi
pub mod Wrappers
pub mod Dirent
pub mod Print
pub mod Frame
pub mod Orderly
use minlinux.Base.{ℕ, suc, Bool, true, false, Option, none, some, List, [], ◌∷◌, if◌then◌else◌}
use minlinux.Base.Int.{ℤ, pos, negsuc, is_neg}
use minlinux.Memory.{Memory, Run, ok, fault, out_of_fuel}
use minlinux.Uring.{Uring, Mapping}
use minlinux.System.Abi.{Call}

-- What the kernel answers to a call after the calls before it, latest first: the value in `rax` and
-- what it writes through the call's pointers, as bytes or as the numbers of a struct's fields. What
-- is mapped into memory after the calls so far is `mapped`; at io_uring_enter the shared rings and the
-- console buffer become what `rings` and `lines` make of them.
pub record Kernel : Type 0 where
  pub rax : List Call → Call → ℤ
  pub bytes : List Call → Call → List ℕ
  pub fields : List Call → Call → List ℤ
  pub mapped : List Call → Mapping
  pub rings : List Call → Uring → Uring
  pub lines : List Call → Memory → Memory

-- The state of the program: the calls made, latest first, the static `buffer` and `sigfd` of
-- init.c, and the queue.
pub record World : Type 0 where
  pub calls : List Call
  pub buffer : Memory
  pub sigfd : ℤ
  pub uring : Uring

-- Why a program does not go on: `exit`, the power is off, another program replaced it, an access
-- outside an object, other behaviour that C leaves undefined (a read of an object that has ended, or
-- code behind `__builtin_unreachable`), or the model's bound on the rounds of a loop.
pub data Stop : Type 0 where
  exited : ℕ → Stop
  powered_off replaced crashed undefined no_fuel : Stop

pub data Outcome (A : Type 0) : Type 0 where
  returned : A → World → Outcome A
  stopped : Stop → World → Outcome A

abbrev pub Program : Type 0 → Type 0
Program A = World → Outcome A

module _ {A B : Type 0} where
  abbrev pub and_then : Outcome A → (A → Program B) → Outcome B
  and_then (returned a w) k = k a w
  and_then (stopped s w) k = stopped s w

  infixl 5 ◌>>=◌ ◌>>◌
  abbrev pub ◌>>=◌ : Program A → (A → Program B) → Program B
  m >>= k = λ w. and_then (m w) k

  abbrev pub ◌>>◌ : Program A → Program B → Program B
  m >> n = m >>= λ _. n

abbrev pub Unit0 : Type 0
Unit0 = Unit {0}

module _ {A : Type 0} where
  abbrev pub pure : A → Program A
  pure = returned

  abbrev pub stop : Stop → Program A
  stop s w = stopped s w

  -- A routine over memory, inside a program.
  abbrev pub run : Run A → Program A
  run (ok a) = pure a
  run fault = stop crashed
  run out_of_fuel = stop no_fuel

abbrev pub gets : {A : Type 0} → (World → A) → Program A
gets f w = returned (f w) w

abbrev pub modify : (World → World) → Program Unit0
modify f w = returned tt (f w)

abbrev pub skip : Program Unit0
skip = pure tt

abbrev pub record_call : Call → World → World
record_call c w = record w { calls = c ∷ w.calls }

module _ (k : Kernel) where
  -- `SYSCALL_n(num, …)`
  abbrev pub syscall : Call → Program ℤ
  syscall c w = returned (k.rax w.calls c) (record_call c w)

  -- The same, with the bytes that the kernel stores.
  abbrev pub syscall_bytes : Call → Program (ℤ × List ℕ)
  syscall_bytes c w = returned (k.rax w.calls c, k.bytes w.calls c) (record_call c w)

  -- The same, with the fields of the struct that the kernel fills in.
  abbrev pub syscall_fields : Call → Program (ℤ × List ℤ)
  syscall_fields c w = returned (k.rax w.calls c, k.fields w.calls c) (record_call c w)
