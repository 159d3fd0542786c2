-- ===== src/Uring/Contract.antt =====
-- What the kernel documents of io_uring, as hypotheses on the parameter that stands for it.
use minlinux.Base.{
  ℕ, ◌+◌, ◌-◌, ◌^◌, ◌≤◌, ◌<◌, ◌≡◌, Option, none, some, List, [], ◌∷◌, ◌++◌, All, length,
  if◌then◌else◌, ◌==◌, ◌*◌, Bool, true, false,
}
use minlinux.Base.Int.{ℤ, pos, negsuc, IsInt64}
use minlinux.Memory.{Memory}
use minlinux.Uring.{Uring, Sqe, Cqe, Mapping}
use minlinux.Uring.Valid.{IsValid, published, visible}
use minlinux.Uring.Complete.{IsCqValid, completions}
use minlinux.Uring.Calls.{enter_call, map_call}
use minlinux.System.{Kernel}
use minlinux.System.Wrappers
use minlinux.System.Print.{Build}
use minlinux.Uring.Params
use minlinux.System.Abi.{Call, Constant}
use minlinux.System.Frame.{is_enter}

abbrev pub count : ℕ → List ℕ → ℕ
count x [] = 0
count x (y ∷ ys) = (if x == y then 1 else 0) + count x ys

-- The `user_data` of entries and of completions.
abbrev pub requests : List (Option Sqe) → List ℕ
requests [] = []
requests (none ∷ es) = requests es
requests (some e ∷ es) = e.user_data ∷ requests es

abbrev pub answers : List (Option Cqe) → List ℕ
answers [] = []
answers (none ∷ es) = answers es
answers (some e ∷ es) = e.user_data ∷ answers es

-- No read gives more than the `size` bytes that were asked for.
abbrev pub Within : ℕ → ℤ → Type 0
Within size (pos n) = n ≤ size
Within size (negsuc n) = n < 2 ^ 63

-- The result of a completion is a 64-bit number and, where `reads` is its `user_data`, fits in the
-- buffer that was read into.
abbrev pub Sound : (reads size : ℕ) → Option Cqe → Type 0
Sound reads size none = Unit
Sound reads size (some e) = IsInt64 e.res × (e.user_data ≡ reads → Within size e.res)

-- An entry with the `user_data` `reads` asks for no more than `size` bytes.
abbrev pub Asks : (reads size : ℕ) → Option Sqe → Type 0
Asks reads size none = Unit
Asks reads size (some e) = e.user_data ≡ reads → e.len ≤ size

-- The entries that the program has handed over, by the io_uring_enter calls it made.
abbrev pub handed_by : ℕ → Bool → Option Uring → List (Option Sqe)
handed_by ks true (some u) = visible ks u
handed_by ks _ _ = []

abbrev pub handed : ℕ → List Call → List (Option Sqe)
handed ks [] = []
handed ks (c ∷ before) = handed_by ks (is_enter c.number) c.shared ++ handed ks before

-- At io_uring_enter the kernel takes every entry that it can see, and some of those taken now or
-- before are complete: their completions stand behind the earlier ones. The rest is pending. A
-- completion gives no more than its entry asked for: where every entry `seen` with that `user_data`
-- asks for at most `size` bytes, none gives more.
pub record Entered (ks kc reads size : ℕ) (u after : Uring) (seen : List (Option Sqe))
    (pending pending' : List ℕ) : Type 0 where
  pub same_sq :
      (after.sq_entries ≡ u.sq_entries)
      × (after.sq_mask ≡ u.sq_mask)
      × (after.sq_array ≡ u.sq_array)
      × (after.sqes ≡ u.sqes)
      × (after.sq_tail ≡ u.sq_tail)
  pub consumed : after.sq_head ≡ u.sq_tail
  pub arrived : List (Option Cqe)
  pub completed : completions kc after ≡ completions kc u ++ arrived
  pub cq_valid : IsCqValid kc after
  pub sound : All (Asks reads size) seen → All (Sound reads size) arrived
  pub tokens :
      (x : ℕ)
      → count x (answers arrived) + count x pending'
        ≡ count x (requests (visible ks u)) + count x pending

-- What io_uring_setup promises of the memory behind its descriptor, with the offsets in `p`: the
-- rings are short of 2^31 bytes, and mappings of `bytes` and `sqes_bytes` that reach to their ends
-- show empty rings at those offsets, and the submissions.
pub record Maps (ks kc : ℕ) (b : Build) (p : List ℤ) (bytes sqes_bytes : ℕ) (m : Mapping)
    : Type 0 where
  pub order : ks < 32
  pub entries : Params.sq_entries p ≡ 2 ^ ks
  pub cq_order : kc < 32
  pub short_sqes : Params.sq_entries p * b.sizeof_sqe < 2 ^ 64
  pub short_sq : Params.sq_off_array p + Params.sq_entries p * 4 < 2 ^ 31
  pub short_cq : Params.cq_off_cqes p + Params.cq_entries p * b.sizeof_cqe < 2 ^ 31
  pub ring :
      Params.sq_off_array p + Params.sq_entries p * 4 ≤ bytes
      → Params.cq_off_cqes p + Params.cq_entries p * b.sizeof_cqe ≤ bytes
      → (m.word (Params.sq_off_ring_entries p) ≡ 2 ^ ks)
        × (m.word (Params.sq_off_ring_mask p) ≡ 2 ^ ks - 1)
        × (length (m.indices (Params.sq_off_array p)) ≡ 2 ^ ks)
        × (m.word (Params.sq_off_head p) ≡ 0)
        × (m.word (Params.sq_off_tail p) ≡ 0)
        × (m.word (Params.cq_off_ring_mask p) ≡ 2 ^ kc - 1)
        × (length (m.results (Params.cq_off_cqes p)) ≡ 2 ^ kc)
        × (m.word (Params.cq_off_head p) ≡ 0)
        × (m.word (Params.cq_off_tail p) ≡ 0)
  pub sqes : Params.sq_entries p * b.sizeof_sqe ≤ sqes_bytes → length m.submissions ≡ 2 ^ ks

-- `pending` is what the kernel has taken and not completed after the calls so far.
pub record Contract (ks kc reads size : ℕ) (k : Kernel) (b : Build) (pending : List Call → List ℕ)
    : Type 0 where
  pub wide : (before : List Call) (c : Call) → IsInt64 (k.rax before c)
  pub nothing_yet : pending [] ≡ []
  pub others :
      (c : Call) (before : List Call)
      → is_enter c.number ≡ false
      → pending (c ∷ before) ≡ pending before
  pub enters :
      (u : Uring) (before : List Call) (wanted : ℕ)
      → IsValid ks u
      → IsCqValid kc u
      → let c = enter_call u (published u) wanted in
        Entered ks kc reads size u
          (k.rings (c ∷ before) u)
          (handed ks (c ∷ before))
          (pending before)
          (pending (c ∷ before))
  pub same_size : (calls : List Call) (m : Memory) → length (k.lines calls m) ≡ length m
  pub maps :
      (fd : ℤ) (size bytes sqes_bytes : ℕ) (before : List Call)
      → let asked = Wrappers.io_uring_setup size ∷ before in
        let c = map_call fd bytes Constant.ioring_off_sq_ring in
        let c' = map_call fd sqes_bytes Constant.ioring_off_sqes in
        k.rax before (Wrappers.io_uring_setup size) ≡ fd
        → Maps ks kc b
            (k.fields before (Wrappers.io_uring_setup size))
            bytes
            sqes_bytes
            (k.mapped (c' ∷ c ∷ asked))
