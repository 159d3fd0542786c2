-- ===== src/Uring/Calls.antt =====
-- util/uring_ctl.c: uring_init, uring_wait and uring_close, with their system calls. What the mapped
-- memory holds is a parameter, by its offsets.
use minlinux.Base.{some, ℕ, ◌+◌, ◌*◌, List, [], ◌∷◌, ◌++◌, if◌then◌else◌, ◌==◌, codes, ◌%◌, ◌^◌}
use minlinux.Base.Int.{ℤ, pos, negsuc, to_u64, to_int, less}
use minlinux.Uring.{Uring, Mapping, flush}
use minlinux.System.{
  Kernel, Program, Unit0, exited, stop, syscall, syscall_fields, run, gets, modify, ◌>>=◌, ◌>>◌,
  skip, pure,
}
use minlinux.System.Abi.{Call, Constant}
use minlinux.System.Wrappers
use minlinux.System.Wrappers.{Text}
use minlinux.System.Print.{Build, syscheck}
use minlinux.Uring.Params

-- What the kernel leaves of the queue; the fields outside the shared memory stay.
abbrev pub handed_back : Uring → Uring → Uring
handed_back uring rings = record rings {
  ringfd = uring.ringfd;
  mmap_ring = uring.mmap_ring;
  mmap_sqes = uring.mmap_sqes;
  mmap_ring_size = uring.mmap_ring_size;
  mmap_sqes_size = uring.mmap_sqes_size;
  sq_list_head = uring.sq_list_head;
  sq_list_tail = uring.sq_list_tail;
}

-- `io_uring_enter(…)`, at which the kernel reads the shared memory.
abbrev pub enter_call : Uring → ℕ → ℕ → Call
enter_call uring submitted count =
    record (Wrappers.io_uring_enter uring.ringfd submitted count
      (Constant.ioring_enter_getevents ∷ [])) { shared = some uring }

-- The arguments of both mappings.
abbrev pub map_call : ℤ → ℕ → Constant → Call
map_call fd size offset =
    Wrappers.mmap size (Constant.prot_read ∷ Constant.prot_write ∷ [])
      (Constant.map_shared ∷ Constant.map_populate ∷ []) fd offset

-- `sring_sz` and `cring_sz`, of type `int`, and from them `mmap_ring_size` and `mmap_sqes_size`.
unfoldable pub sring_sz : List ℤ → ℤ
sring_sz p = to_int (Params.sq_off_array p + Params.sq_entries p * 4)

unfoldable pub cring_sz : Build → List ℤ → ℤ
cring_sz b p = to_int (Params.cq_off_cqes p + Params.cq_entries p * b.sizeof_cqe)

unfoldable pub ring_size : Build → List ℤ → ℕ
unfolding sring_sz cring_sz
ring_size b p = to_u64 (if less (sring_sz p) (cring_sz b p) then cring_sz b p else sring_sz p)

unfoldable pub sqes_size : Build → List ℤ → ℕ
sqes_size b p = Params.sq_entries p * b.sizeof_sqe % 2 ^ 64

-- The queue over the mapped memory: each pointer leads to what stands at the kernel's offset. The
-- program's own counters start at 0.
unfoldable pub queue_at : Build → ℤ → ℤ → ℤ → List ℤ → Mapping → Uring
queue_at b fd mmap_ring mmap_sqes p shared = record {
  ringfd = fd;
  mmap_ring = mmap_ring;
  mmap_ring_size = ring_size b p;
  mmap_sqes = mmap_sqes;
  mmap_sqes_size = sqes_size b p;
  sqes = shared.submissions;
  sq_entries = shared.word (Params.sq_off_ring_entries p);
  sq_mask = shared.word (Params.sq_off_ring_mask p);
  sq_head = shared.word (Params.sq_off_head p);
  sq_tail = shared.word (Params.sq_off_tail p);
  sq_array = shared.indices (Params.sq_off_array p);
  sq_list_head = 0;
  sq_list_tail = 0;
  cqes = shared.results (Params.cq_off_cqes p);
  cq_head = shared.word (Params.cq_off_head p);
  cq_tail = shared.word (Params.cq_off_tail p);
  cq_mask = shared.word (Params.cq_off_ring_mask p);
  cq_entries = shared.word (Params.cq_off_ring_entries p);
}

module _ (k : Kernel) (b : Build) where
  abbrev checked : Text → ℤ → Program ℤ
  checked line res = syscheck k (b.uring_ctl_c ++ line) res

  -- `exit(1)`
  abbrev give_up : {A : Type 0} → Program A
  give_up = syscall k (Wrappers.exit 1) >> stop (exited 1)

  unfoldable pub map_ring : ℤ → ℕ → Constant → Program ℤ
  map_ring fd size offset = syscall k (map_call fd size offset)

  -- What follows io_uring_setup, which gave `fd` and filled in `p`.
  unfoldable pub set_up : ℤ → List ℤ → Program Uring
  unfolding map_ring queue_at
  set_up (negsuc n) p = give_up
  set_up (pos fd) p = if Params.single_mmap p == 0 then give_up else do
    res ← map_ring (pos fd) (ring_size b p) Constant.ioring_off_sq_ring
    mmap_ring ← checked (codes ":32") res
    res' ← map_ring (pos fd) (sqes_size b p) Constant.ioring_off_sqes
    mmap_sqes ← checked (codes ":56") res'
    shared ← gets (λ w. k.mapped w.calls)
    pure (queue_at b (pos fd) mmap_ring mmap_sqes p shared)

  unfoldable pub uring_init : ℕ → Program Uring
  unfolding set_up
  uring_init size = do (fd, p) ← syscall_fields k (Wrappers.io_uring_setup size); set_up fd p

  -- The call hands control to the kernel, which may change the shared rings and, by completing a
  -- read, the console buffer.
  unfoldable pub uring_wait : ℕ → Program Unit0
  uring_wait count = do
    before ← gets (λ w. w.uring)
    (submitted, uring) ← run (flush before)
    res ← syscall k (enter_call uring submitted count)
    modify (λ w. record w {
      uring = handed_back uring (k.rings w.calls uring);
      buffer = k.lines w.calls w.buffer;
    })
    checked (codes ":138") res
    skip

  pub uring_close : Uring → Program Unit0
  uring_close uring = do
    ring ← syscall k (Wrappers.munmap uring.mmap_ring uring.mmap_ring_size)
    checked (codes ":142") ring
    sqes ← syscall k (Wrappers.munmap uring.mmap_sqes uring.mmap_sqes_size)
    checked (codes ":143") sqes
    closed ← syscall k (Wrappers.close uring.ringfd)
    checked (codes ":144") closed
    skip
