-- ===== src/Uring/Tests.antt =====
-- util/uring_ctl.c on a ring of two entries whose counters are about to wrap: tests, and the
-- theorems at inputs that meet their hypotheses.
use minlinux.Base.{ℕ, ◌+◌, ◌-◌, ◌^◌, ◌<◌, ◌≡◌, ◌⊎◌, refl, some, none, [], ◌∷◌, arith}
use minlinux.Base.Int.{pos}
use minlinux.Memory.{ok}
use minlinux.Uring.{
  ioring_op_read, console_buffer, Uring, Sqe, Cqe, uring_result, uring_advance,
  uring_new_submission, flush,
}
use minlinux.Uring.Valid.{IsValid, published, taken}
use minlinux.Uring.Flush.{FlushesAll, flush-FlushesAll}
use minlinux.Uring.Submit.{Takes, uring_new_submission_lem}
use minlinux.Uring.Complete.{IsCqValid, completions, Yields, uring_result_lem}
use minlinux.Uring.Protocol.{
  Reach, begin, submits, hands_over, consumes, consume, Accounts, Reach-Accounts,
}

abbrev last : ℕ
last = 2 ^ 32 - 1

abbrev request : ℕ → Sqe
request n = record {
  opcode = ioring_op_read;
  fd = pos 0;
  addr = console_buffer;
  len = 1024;
  flags = [];
  ioprio = 0;
  user_data = n;
}

abbrev answer : ℕ → Cqe
answer n = record { user_data = n; res = pos 1; flags = 0 }

abbrev empty : Uring
empty = record {
  ringfd = pos 3;
  mmap_ring = pos 4096;
  mmap_sqes = pos 8192;
  mmap_ring_size = 512;
  mmap_sqes_size = 128;
  sqes = request 7 ∷ request 7 ∷ [];
  sq_entries = 2;
  sq_mask = 1;
  sq_head = last;
  sq_tail = last;
  sq_array = 0 ∷ 0 ∷ [];
  sq_list_head = last;
  sq_list_tail = last;
  cqes = answer 0 ∷ answer 2 ∷ answer 1 ∷ answer 0 ∷ [];
  cq_head = 1;
  cq_tail = 3;
  cq_mask = 3;
  cq_entries = 4;
}

empty-IsValid : IsValid 1 empty
empty-IsValid = record {
  order = omega arith;
  entries = refl;
  mask = refl;
  array_size = refl;
  sqes_size = refl;
  head_small = omega arith;
  tail_small = omega arith;
  list_tail_small = omega arith;
  joined = refl;
  fits = omega arith;
  aligned = λ j less. absurd (omega arith);
}

empty-IsCqValid : IsCqValid 2 empty
empty-IsCqValid = record {
  order = omega arith;
  mask = refl;
  size = refl;
  head_small = omega arith;
  tail_small = omega arith;
  fits = omega arith;
}

-- After one submission, which wraps the counter, and after two.
abbrev one : Uring
one = record empty { sqes = request 7 ∷ request 1 ∷ []; sq_list_tail = 0 }

abbrev two : Uring
two = record one { sqes = request 2 ∷ request 1 ∷ []; sq_list_tail = 1 }

abbrev flushed : Uring
flushed = record two { sq_array = 0 ∷ 1 ∷ []; sq_list_head = 1; sq_tail = 1 }

takes_and_fills :
    (uring_new_submission empty ≡ (some 1, record empty { sq_list_tail = 0 }))
    × (uring_new_submission one ≡ (some 0, record one { sq_list_tail = 1 }))
    × (uring_new_submission two ≡ (none, two))
unfolding uring_new_submission
takes_and_fills = (refl, refl, refl)

flush_runs : flush two ≡ ok (2, flushed)
unfolding flush
flush_runs = refl

uring_new_submission_lem_example :
    (published empty + taken empty ≡ 2 ^ 1) × (uring_new_submission empty ≡ (none, empty))
    ⊎ (published empty + taken empty < 2 ^ 1)
      × Takes 1 empty (request 1) (uring_new_submission empty)
uring_new_submission_lem_example = uring_new_submission_lem 1 empty (request 1) empty-IsValid

two-Reach : Reach 1 2 empty two (some (request 1) ∷ some (request 2) ∷ []) []
unfolding uring_new_submission
two-Reach =
    submits (submits begin (request 1) 1 (record empty { sq_list_tail = 0 }) refl) (request 2) 0
      (record one { sq_list_tail = 1 }) refl

two-IsValid : IsValid 1 two
two-IsValid = (Reach-Accounts 1 2 empty two _ [] empty-IsValid refl refl two-Reach).valid

flush-FlushesAll_example : FlushesAll 1 two (flush two)
flush-FlushesAll_example = flush-FlushesAll 1 two two-IsValid

uring_result_lem_example : (uring_result empty ≡ none) × (completions 2 empty ≡ []) ⊎ Yields 2 empty
uring_result_lem_example = uring_result_lem 2 empty empty-IsCqValid

completion_runs :
    (uring_result empty ≡ some 1)
    × (uring_result (uring_advance empty) ≡ some 2)
    × (uring_result (uring_advance (uring_advance empty)) ≡ none)
unfolding uring_result uring_advance
completion_runs = (refl, refl, refl)

-- Two submissions, the flush, and the kernel takes the first.
Reach-Accounts_example :
    Accounts 1
      (consume flushed 1)
      (some (request 1) ∷ some (request 2) ∷ [])
      (some (request 1) ∷ [])
unfolding flush
Reach-Accounts_example =
    Reach-Accounts 1 2 empty (consume flushed 1) (some (request 1) ∷ some (request 2) ∷ [])
      (some (request 1) ∷ []) empty-IsValid refl refl
      (consumes (hands_over two-Reach 2 flushed refl) 1 (omega arith))
