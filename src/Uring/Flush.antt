-- ===== src/Uring/Flush.antt =====
-- util/uring_ctl.c: the part of uring_wait that hands entries to the kernel.
use minlinux.Base.{
  ℕ, ◌+◌, ◌-◌, ◌^◌, ◌≤◌, ◌≡◌, inl, inr, refl, sym, ap, ap₂, ◌∙◌, Option, List, [], ◌++◌, append-nil,
  arith, length, get_elem?, u32, sub32, Bool-cases, ltb,
}
use minlinux.Memory.{Run, ok}
use minlinux.Uring.{Uring, Sqe, flush_loop, flush}
use minlinux.Uring.Window.{window, window-add}
use minlinux.Uring.Valid.{slot, Aligned, published, taken, IsValid, entry_of, visible, queued}
use minlinux.Uring.Loop.{order-bound, visible_of_Aligned, Flushed, flush_loop-Flushed}

-- What the flush leaves: the kernel sees what it saw and then the entries taken since, in order,
-- none is left over, and the number passed to the system call counts all that it sees.
pub record FlushesAll (k : ℕ) (u : Uring) (run : Run (ℕ × Uring)) : Type 0 where
  pub after : Uring
  pub returns : run ≡ ok (published u + taken u, after)
  pub valid : IsValid k after
  pub handed_over : visible k after ≡ visible k u ++ queued k u
  pub none_left : queued k after ≡ []
  pub same_sqes : after.sqes ≡ u.sqes
  pub same_head : after.sq_head ≡ u.sq_head
  pub same_completions :
      (after.cqes ≡ u.cqes)
      × (after.cq_head ≡ u.cq_head)
      × (after.cq_tail ≡ u.cq_tail)
      × (after.cq_mask ≡ u.cq_mask)

-- The queue with all its entries handed over, the index array being `array`.
abbrev handed : Uring → List ℕ → Uring
handed u array = record u {
  sq_array = array;
  sq_list_head = u.sq_list_tail;
  sq_tail = u.sq_list_tail;
}

module _ (k : ℕ) (u : Uring) (v : IsValid k u) where
  bound : 2 ^ k ≤ 2 ^ 31
  bound = order-bound k v.order

  pub counts : sub32 u.sq_list_tail u.sq_head ≡ published u + taken u
  counts = omega (arith, bound, v.fits, v.joined, v.head_small, v.tail_small, v.list_tail_small)

  pub meets : u32 (u.sq_head + (published u + taken u)) ≡ u.sq_list_tail
  meets = omega (arith, bound, v.fits, v.joined, v.head_small, v.tail_small, v.list_tail_small)

  handed_returns :
      Flushed k v.order u.sq_head
        (published u)
        (taken u)
        u
        (flush_loop (taken u) (2 ^ k - 1) u.sq_list_head u)
  handed_returns =
      flush_loop-Flushed k v.order (taken u) u.sq_head (published u) u
        (omega (arith, v.joined, v.head_small, v.tail_small)) v.array_size v.fits v.aligned

  module _ (array : List ℕ) (size : length array ≡ 2 ^ k)
      (aligned : Aligned k array u.sq_head (published u + taken u)) where
    handed-IsValid : IsValid k (handed u array)
    handed-IsValid = record {
      order = v.order;
      entries = v.entries;
      mask = v.mask;
      array_size = size;
      sqes_size = v.sqes_size;
      head_small = v.head_small;
      tail_small = v.list_tail_small;
      list_tail_small = v.list_tail_small;
      joined = refl;
      fits = omega (arith, counts, v.fits, v.list_tail_small);
      aligned = rw counts aligned;
    }

    handed-visible : visible k (handed u array) ≡ visible k u ++ queued k u
    handed-visible =
        let f : ℕ → Option Sqe = λ c. get_elem? u.sqes (slot k c) in
        let p = published u in
        let reach : u32 (u.sq_head + p) ≡ u.sq_list_head =
          omega (arith, v.joined, v.head_small, v.tail_small) in
        ap (λ n. visible_window n) counts
        ∙ visible_of_Aligned k (handed u array) (p + taken u) v.head_small aligned
        ∙ window-add f u.sq_head p (taken u) v.head_small
        ∙ ap₂ ◌++◌ (sym (visible_of_Aligned k u p v.head_small v.aligned))
            (ap (λ h. window f h (taken u)) reach)
      where
        visible_window : ℕ → List (Option Sqe)
        visible_window n = window (λ c. entry_of u.sqes (get_elem? array (slot k c))) u.sq_head n

  loop_runs :
      flush_loop (taken u) u.sq_mask u.sq_tail u
      ≡ ok (
        u.sq_list_tail,
        record u { sq_array = handed_returns.array; sq_list_head = u.sq_list_tail },
      )
  loop_runs =
      ap₂ (λ mask t. flush_loop (taken u) mask t u) v.mask (sym v.joined)
      ∙ handed_returns.returns
      ∙ ap (λ t. ok (t, record u { sq_array = handed_returns.array; sq_list_head = t })) meets

  queued_none : taken u ≡ 0 → queued k u ≡ []
  queued_none e = ap (λ n. window (λ c. get_elem? u.sqes (slot k c)) u.sq_list_head n) e

  -- The flush of uring_wait hands every taken entry to the kernel, in the order in which they were
  -- taken and behind those that the kernel has not consumed yet, and keeps the ring well formed.
  pub flush-FlushesAll : FlushesAll k u (flush u)
  unfolding flush
  flush-FlushesAll = elim (Bool-cases (ltb 0 (taken u))) [
    | inl some_taken ↦
        let done = handed_returns in
        let none_more : sub32 u.sq_list_tail u.sq_list_tail ≡ 0 =
          omega (arith, v.list_tail_small) in
        record {
          after = handed u done.array;
          returns = rw (some_taken, loop_runs) (ap (λ n. ok (n, handed u done.array)) counts);
          valid = handed-IsValid done.array done.size done.aligned;
          handed_over = handed-visible done.array done.size done.aligned;
          none_left =
              ap (λ n. window (λ c. get_elem? u.sqes (slot k c)) u.sq_list_tail n) none_more;
          same_sqes = refl;
          same_head = refl;
          same_completions = (refl, refl, refl, refl);
        }
    | inr none_taken ↦
        let zero_taken : taken u ≡ 0 = ground arith in
        record {
          after = u;
          returns = rw none_taken (ap (λ n. ok (n, u)) (omega arith));
          valid = v;
          handed_over = sym (ap (λ q. visible k u ++ q) (queued_none zero_taken) ∙ append-nil _);
          none_left = queued_none zero_taken;
          same_sqes = refl;
          same_head = refl;
          same_completions = (refl, refl, refl, refl);
        }
  ]
