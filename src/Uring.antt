-- ===== src/Uring.antt =====
-- util/uring_ctl.c and include/minlinux/uring_ctl.h, without the system calls: the two rings that
-- the program shares with the kernel and the program's own counters.
-- Counters are `uint32_t` and wrap; what a pointer into the shared memory reaches is a field.
pub mod Window
pub mod Valid
pub mod Loop
pub mod Flush
pub mod Submit
pub mod Complete
pub mod Protocol
pub mod Params
pub mod Calls
pub mod Contract
pub mod Tally
pub mod Wait
pub mod Start
pub mod Arrive
mod Tests
use minlinux.Base.{
  ℕ, zero, suc, ◌+◌, Bool, Option, none, some, List, set, u32, sub32, ltb, leb, ◌==◌, if◌then◌else◌,
  bit_and,
}
use minlinux.Base.Int.{ℤ}
use minlinux.Memory.{Run, ok, ◌>>=◌, store}

-- The objects that the program names in a submission: the text of the prompt, the console buffer
-- and the record that signalfd fills.
pub data Address : Type 0 where
  prompt_text console_buffer signal_info : Address

pub data Opcode : Type 0 where
  ioring_op_read ioring_op_write : Opcode

-- `IOSQE_IO_LINK`: the next submission starts after this one is complete.
pub data SqeFlag : Type 0 where
  io_link : SqeFlag

-- `struct io_uring_sqe`, the fields that the program sets.
pub record Sqe : Type 0 where
  pub opcode : Opcode
  pub fd : ℤ
  pub addr : Address
  pub len : ℕ
  pub flags : List SqeFlag
  pub ioprio : ℕ
  pub user_data : ℕ

-- `struct io_uring_cqe`
pub record Cqe : Type 0 where
  pub user_data : ℕ
  pub res : ℤ
  pub flags : ℕ

-- `uring_queue`; the two mappings are also their addresses.
pub record Uring : Type 0 where
  pub ringfd : ℤ
  pub mmap_ring : ℤ
  pub mmap_ring_size : ℕ
  pub mmap_sqes : ℤ
  pub mmap_sqes_size : ℕ
  pub sqes : List Sqe
  pub sq_entries : ℕ
  pub sq_mask : ℕ
  pub sq_head : ℕ
  pub sq_tail : ℕ
  pub sq_array : List ℕ
  pub sq_list_head : ℕ
  pub sq_list_tail : ℕ
  pub cqes : List Cqe
  pub cq_head : ℕ
  pub cq_tail : ℕ
  pub cq_mask : ℕ
  pub cq_entries : ℕ

-- What the two mappings share with the kernel: in the memory of the rings, by their offset in it, the
-- words and the arrays of indices and of completions; and the array of submissions.
pub record Mapping : Type 0 where
  pub word : ℕ → ℕ
  pub indices : ℕ → List ℕ
  pub results : ℕ → List Cqe
  pub submissions : List Sqe

-- The index of the oldest completion in `cqes`, or NULL.
unfoldable pub uring_result : Uring → Option ℕ
uring_result uring =
    let head = uring.cq_head in
    if head == uring.cq_tail then none else some (bit_and head uring.cq_mask)

unfoldable pub uring_advance : Uring → Uring
uring_advance uring = record uring { cq_head = u32 (uring.cq_head + 1) }

-- The index of a free entry in `sqes`, or NULL, and the queue with the entry taken.
unfoldable pub uring_new_submission : Uring → Option ℕ × Uring
uring_new_submission uring =
    let head = uring.sq_head in
    let next = u32 (uring.sq_list_tail + 1) in
    if leb (sub32 next head) uring.sq_entries
    then (some (bit_and uring.sq_list_tail uring.sq_mask), record uring { sq_list_tail = next })
    else (none, uring)

-- The rounds of `do … while (--to_submit)`; `sq_tail` is the local variable.
pub flush_loop : ℕ → ℕ → ℕ → Uring → Run (ℕ × Uring)
flush_loop zero mask sq_tail uring = ok (sq_tail, uring)
flush_loop (suc to_submit) mask sq_tail uring = do
  array ← store uring.sq_array (bit_and sq_tail mask) (bit_and uring.sq_list_head mask)
  flush_loop to_submit mask (u32 (sq_tail + 1))
      (record uring { sq_array = array; sq_list_head = u32 (uring.sq_list_head + 1) })

-- `uring_wait` up to its system call: the number to pass to it, and the queue.
unfoldable pub flush : Uring → Run (ℕ × Uring)
unfolding flush_loop
flush uring = do
  let to_submit = sub32 uring.sq_list_tail uring.sq_list_head
  let moved : Run (ℕ × Uring) = flush_loop to_submit uring.sq_mask uring.sq_tail uring
  (sq_tail, uring') ← if ltb 0 to_submit then moved else ok (uring.sq_tail, uring)
  let uring'' : Uring = if ltb 0 to_submit then record uring' { sq_tail = sq_tail } else uring'
  ok (sub32 sq_tail uring''.sq_head, uring'')

-- `*sqe = e` through the pointer that `uring_new_submission` gave.
abbrev pub fill : Uring → ℕ → Sqe → Uring
fill uring i e = record uring { sqes = set uring.sqes i e }
