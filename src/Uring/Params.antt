-- ===== src/Uring/Params.antt =====
-- The `struct io_uring_params` that io_uring_setup fills in, of which util/uring_ctl.c reads these
-- fields, in this order; each is a `uint32_t`. `single_mmap` is `features & IORING_FEAT_SINGLE_MMAP`.
use minlinux.Base.{ℕ, List, u32}
use minlinux.Base.Int.{ℤ, to_u64}
use minlinux.Command.Builtins.{field}

abbrev word : ℕ → List ℤ → ℕ
word i p = u32 (to_u64 (field i p))

abbrev pub single_mmap : List ℤ → ℕ
single_mmap = word 0

abbrev pub sq_entries : List ℤ → ℕ
sq_entries = word 1

abbrev pub cq_entries : List ℤ → ℕ
cq_entries = word 2

abbrev pub sq_off_head : List ℤ → ℕ
sq_off_head = word 3

abbrev pub sq_off_tail : List ℤ → ℕ
sq_off_tail = word 4

abbrev pub sq_off_ring_mask : List ℤ → ℕ
sq_off_ring_mask = word 5

abbrev pub sq_off_ring_entries : List ℤ → ℕ
sq_off_ring_entries = word 6

abbrev pub sq_off_array : List ℤ → ℕ
sq_off_array = word 7

abbrev pub cq_off_head : List ℤ → ℕ
cq_off_head = word 8

abbrev pub cq_off_tail : List ℤ → ℕ
cq_off_tail = word 9

abbrev pub cq_off_ring_mask : List ℤ → ℕ
cq_off_ring_mask = word 10

abbrev pub cq_off_ring_entries : List ℤ → ℕ
cq_off_ring_entries = word 11

abbrev pub cq_off_cqes : List ℤ → ℕ
cq_off_cqes = word 12
