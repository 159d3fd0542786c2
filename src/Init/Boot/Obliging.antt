-- ===== src/Init/Boot/Obliging.antt =====
-- A kernel that completes the oldest request at each io_uring_enter, with a line of one letter and
-- its end read: it keeps the contract of io_uring.
use minlinux.Command.Documented.{Documented}
use minlinux.Command.Builtins.{field}
use minlinux.Base.{
  All, ◌==◌, if◌then◌else◌, zero, suc, ℕ, ◌+◌, ◌^◌, ◌<◌, ◌≡◌, refl, sym, Bool, true, false, Option,
  some, List, [], ◌∷◌, ◌++◌, append-nil, arith, replicate, ltb, ltb→lt,
}
use minlinux.Base.Int.{ℤ, pos, IsInt64}
use minlinux.Uring.{Uring, Sqe, Cqe, Mapping}
use minlinux.Uring.Valid.{visible}
use minlinux.Uring.Complete.{arrived, IsCqValid, completions}
use minlinux.Uring.Protocol.{complete}
use minlinux.Uring.Arrive.{complete-IsCqValid, completions-complete}
use minlinux.Uring.Contract.{count, requests, Entered, Contract}
use minlinux.Uring.Tally.{count-append, IsCqValid-same}
use minlinux.System.{Kernel}
use minlinux.System.Abi.{Number, Call}
use minlinux.System.Frame.{is_enter}
use minlinux.Init.{event_console_read, prompt_sqe}
use minlinux.Init.Samples.{ring, build}

abbrev pub byte_read : ℕ → Cqe
byte_read n = record { user_data = n; res = pos 2; flags = 0 }

-- The queue with every entry taken.
abbrev pub drained : Uring → Uring
drained u = record u { sq_head = u.sq_tail }

-- What is pending and the rings after the requests `todo`, the oldest first, were there.
abbrev pub answered : Bool → List ℕ → Uring → Uring
answered true (n ∷ todo) u = complete 5 (drained u) (byte_read n)
answered _ _ u = drained u

abbrev left : Bool → List ℕ → List ℕ
left true (n ∷ todo) = todo
left _ todo = todo

abbrev pub has_room : Uring → Bool
has_room u = ltb (arrived u) (2 ^ 5)

abbrev left_at : Bool → Option Uring → List ℕ → List ℕ
left_at true (some u) todo = left (has_room u) (todo ++ requests (visible 4 u))
left_at _ _ todo = todo

-- What the kernel has taken and not completed.
abbrev pub pending : List Call → List ℕ
pending [] = []
pending (c ∷ before) = left_at (is_enter c.number) c.shared (pending before)

abbrev pub fresh : Uring
fresh = record ring { cqes = replicate 32 (byte_read 0) }

abbrev rings_at : Bool → List ℕ → Uring → Uring
rings_at true todo u = answered (has_room u) (todo ++ requests (visible 4 u)) u
rings_at false todo u = fresh

abbrev rings : List Call → Uring → Uring
rings [] u = fresh
rings (c ∷ before) u = rings_at (is_enter c.number) (pending before) u

-- clone3 gives the number of the child; every other call is answered by 0.
abbrev answer : Number → ℤ
answer Number.clone3 = pos 7
answer _ = pos 0

-- The fields of `struct io_uring_params`, and what stands at these offsets.
abbrev pub params : List ℤ
params =
    pos 1
    ∷ pos 16
    ∷ pos 32
    ∷ pos 0
    ∷ pos 4
    ∷ pos 8
    ∷ pos 12
    ∷ pos 64
    ∷ pos 16
    ∷ pos 20
    ∷ pos 24
    ∷ pos 28
    ∷ pos 128
    ∷ []

abbrev word_at : ℕ → ℕ
word_at offset =
    if offset == 8
    then 15
    else if offset == 12
    then 16
    else if offset == 24
    then 31
    else if offset == 28
    then 32
    else 0

abbrev pub mapping : Mapping
mapping = record {
  word = word_at;
  indices = λ _. replicate 16 0;
  results = λ _. replicate 32 (byte_read 0);
  submissions = replicate 16 prompt_sqe;
}

abbrev pub obliging : Kernel
obliging = record {
  rax = λ _ c. answer c.number;
  bytes = λ _ _. [];
  fields = λ _ _. params;
  mapped = λ _. mapping;
  rings = rings;
  lines = λ _ m. m;
}

module _ (u : Uring) (cq : IsCqValid 5 u) (seen : List (Option Sqe)) (pend : List ℕ) where
  pub drained-IsCqValid : IsCqValid 5 (drained u)
  drained-IsCqValid = IsCqValid-same 5 u (drained u) (refl, refl, refl, refl) cq

  abbrev AllTodo : List ℕ → Type 0
  AllTodo todo = (x : ℕ) → count x todo ≡ count x (requests (visible 4 u)) + count x pend

  abbrev Answers : Bool → List ℕ → Type 0
  Answers room todo =
      Entered 4 5 event_console_read 1024 u (answered room todo u) seen pend (left room todo)

  none-Answers :
      (todo : List ℕ)
      → AllTodo todo
      → Entered 4 5 event_console_read 1024 u (drained u) seen pend todo
  none-Answers todo all = record {
    same_sq = (refl, refl, refl, refl, refl);
    consumed = refl;
    arrived = [];
    completed = sym (append-nil (completions 5 u));
    cq_valid = drained-IsCqValid;
    sound = λ _. tt;
    tokens = λ x. omega (arith, all x);
  }

  room_Answers :
      (room : Bool) → has_room u ≡ room → (todo : List ℕ) → AllTodo todo → Answers room todo
  room_Answers false e todo all = none-Answers todo all
  room_Answers true e [] all = none-Answers [] all
  room_Answers true e (n ∷ todo) all =
      let free : arrived (drained u) < 2 ^ 5 = ltb→lt (arrived u) (2 ^ 5) e in
      record {
        same_sq = (refl, refl, refl, refl, refl);
        consumed = refl;
        arrived = some (byte_read n) ∷ [];
        completed = completions-complete 5 (drained u) (byte_read n) drained-IsCqValid free;
        cq_valid = complete-IsCqValid 5 (drained u) (byte_read n) drained-IsCqValid free;
        sound = λ _. ((omega arith, λ _. omega arith), tt);
        tokens = λ x. omega (arith, all x);
      }

others :
    (c : Call) (before : List Call)
    → is_enter c.number ≡ false
    → pending (c ∷ before) ≡ pending before
others c before quiet = rw quiet refl

answer-IsInt64 : (n : Number) → IsInt64 (answer n)
answer-IsInt64 Number.clone3 = omega arith
answer-IsInt64 _ = omega arith

pub obliging-Contract : Contract 4 5 event_console_read 1024 obliging build pending
obliging-Contract = record {
  wide = λ _ c. answer-IsInt64 c.number;
  nothing_yet = refl;
  others = others;
  enters = λ u before wanted v cq.
      room_Answers u cq _ (pending before) (has_room u) refl
        (pending before ++ requests (visible 4 u))
        (λ x. omega (arith, count-append x (pending before) (requests (visible 4 u))));
  same_size = λ _ _. refl;
  maps = λ fd size bytes sqes_bytes before e. record {
    order = omega arith;
    entries = refl;
    cq_order = omega arith;
    short_sqes = omega arith;
    short_sq = omega arith;
    short_cq = omega arith;
    ring = λ _ _. (refl, refl, refl, refl, refl, refl, refl, refl, refl);
    sqes = λ _. refl;
  };
}

field-IsInt64 : (l : List ℤ) → All IsInt64 l → (i : ℕ) → IsInt64 (field i l)
field-IsInt64 [] h i = omega arith
field-IsInt64 (x ∷ l) (p, h) zero = p
field-IsInt64 (x ∷ l) (p, h) (suc i) = field-IsInt64 l h i

pub obliging-Documented : Documented obliging
obliging-Documented = record {
  wide = λ _ c. answer-IsInt64 c.number;
  fields = λ _ _ i. field-IsInt64 params (omega arith) i;
  batches = λ before fd n e. absurd (cc);
}
