-- ===== src/Uring/Valid.antt =====
-- The submission ring as a well-formed structure: sizes, counters and the index array.
use minlinux.Base.{
  ℕ, ◌+◌, ◌-◌, ◌%◌, ◌^◌, ◌≤◌, ◌<◌, ◌≡◌, Option, none, some, List, length, get_elem?, u32, sub32,
}
use minlinux.Uring.{Uring, Sqe}
use minlinux.Uring.Window.{window}

-- The place of a counter in a ring of 2^k entries.
abbrev pub slot : ℕ → ℕ → ℕ
slot k c = c % 2 ^ k

-- The index array names, for each of the `n` counters from `h` on, that counter's own place.
abbrev pub Aligned : ℕ → List ℕ → ℕ → ℕ → Type 0
Aligned k array h n =
    (j : ℕ) → j < n → get_elem? array (slot k (u32 (h + j))) ≡ some (slot k (u32 (h + j)))

-- Entries that the kernel may read already, and entries taken but not yet handed over.
abbrev pub published : Uring → ℕ
published u = sub32 u.sq_tail u.sq_head

abbrev pub taken : Uring → ℕ
taken u = sub32 u.sq_list_tail u.sq_list_head

-- A submission ring of 2^k entries between two operations of the program.
pub record IsValid (k : ℕ) (u : Uring) : Type 0 where
  pub order : k < 32
  pub entries : u.sq_entries ≡ 2 ^ k
  pub mask : u.sq_mask ≡ 2 ^ k - 1
  pub array_size : length u.sq_array ≡ 2 ^ k
  pub sqes_size : length u.sqes ≡ 2 ^ k
  pub head_small : u.sq_head < 2 ^ 32
  pub tail_small : u.sq_tail < 2 ^ 32
  pub list_tail_small : u.sq_list_tail < 2 ^ 32
  pub joined : u.sq_list_head ≡ u.sq_tail
  pub fits : published u + taken u ≤ 2 ^ k
  pub aligned : Aligned k u.sq_array u.sq_head (published u)

-- What the kernel reads from its head on: the entry that the index array names.
abbrev pub entry_of : List Sqe → Option ℕ → Option Sqe
entry_of sqes none = none
entry_of sqes (some i) = get_elem? sqes i

abbrev pub visible : ℕ → Uring → List (Option Sqe)
visible k u =
    window (λ c. entry_of u.sqes (get_elem? u.sq_array (slot k c))) u.sq_head (published u)

-- The entries taken by `uring_new_submission` since the last flush, in order.
abbrev pub queued : ℕ → Uring → List (Option Sqe)
queued k u = window (λ c. get_elem? u.sqes (slot k c)) u.sq_list_head (taken u)
