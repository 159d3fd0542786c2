-- ===== src/Uring/Start.antt =====
-- util/uring_ctl.c: the queue that uring_init sets up, with a kernel that keeps its contract.
use minlinux.Base.{
  ℕ, ◌+◌, ◌-◌, ◌*◌, ◌%◌, ◌^◌, ◌≤◌, ◌≡◌, refl, sym, ap, ap₂, Bool-cases, List, [], ◌∷◌, ◌++◌, arith,
  inl, inr, ◌==◌, ==_iff, get_elem?, codes,
}
use minlinux.Base.Int.{ℤ, pos, negsuc}
use minlinux.Uring.{Uring, Mapping}
use minlinux.Uring.Params
use minlinux.Uring.Window.{window}
use minlinux.Uring.Valid.{slot, published, taken, IsValid, entry_of}
use minlinux.Uring.Complete.{IsCqValid, completions}
use minlinux.Uring.Calls.{
  uring_init, set_up, queue_at, map_call, ring_size, sqes_size, sring_sz, cring_sz,
}
use minlinux.Uring.Contract.{Maps, Contract}
use minlinux.Uring.Wait.{waiting}
use minlinux.System.{
  Kernel, World, Outcome, returned, stopped, exited, undefined, and_then, Program, record_call,
}
use minlinux.System.Abi.{Number, Call, Constant}
use minlinux.System.Wrappers
use minlinux.System.Wrappers.{Text}
use minlinux.System.Print.{Build, syscheck, stdout}
use minlinux.System.Print.Laws.{syscheck_cases}
use minlinux.System.Frame.{later, Same, calls_Same}

-- A queue with both rings well formed and empty.
pub record IsEmpty (ks kc : ℕ) (u : Uring) : Type 0 where
  pub valid : IsValid ks u
  pub cq_valid : IsCqValid kc u
  pub none_waiting : waiting ks u ≡ []
  pub none_arrived : completions kc u ≡ []

-- The mappings that uring_init asks for reach to the ends of the rings and of the submissions.
module _ (ks kc : ℕ) (b : Build) (p : List ℤ) (m : Mapping)
    (maps : Maps ks kc b p (ring_size b p) (sqes_size b p) m) where
  covers_sq : Params.sq_off_array p + Params.sq_entries p * 4 ≤ ring_size b p
  unfolding ring_size sring_sz cring_sz
  covers_sq = ground (arith, maps.short_sq, maps.short_cq)

  covers_cq : Params.cq_off_cqes p + Params.cq_entries p * b.sizeof_cqe ≤ ring_size b p
  unfolding ring_size sring_sz cring_sz
  covers_cq = ground (arith, maps.short_sq, maps.short_cq)

  covers_sqes : Params.sq_entries p * b.sizeof_sqe ≤ sqes_size b p
  unfolding sqes_size
  covers_sqes = omega (arith, maps.short_sqes)

  -- The queue there is well formed and empty, and the program's own counters begin where the ring's
  -- do.
  queue-IsEmpty : (fd ring sqes : ℤ) → IsEmpty ks kc (queue_at b fd ring sqes p m)
  unfolding queue_at
  queue-IsEmpty fd ring sqes =
      let u = queue_at b fd ring sqes p m in
      let (entries, mask, array_size, head, tail, cq_mask, cq_size, cq_head, cq_tail) =
        maps.ring covers_sq covers_cq in
      let none_published : published u ≡ 0 = omega (arith, head, tail) in
      let none_taken : taken u ≡ 0 = omega arith in
      let none_came : (u.cq_tail + 2 ^ 32 - u.cq_head) % 2 ^ 32 ≡ 0 =
        omega (arith, cq_head, cq_tail) in
      record {
        valid = record {
          order = maps.order;
          entries = entries;
          mask = mask;
          array_size = array_size;
          sqes_size = maps.sqes covers_sqes;
          head_small = omega (arith, head);
          tail_small = omega (arith, tail);
          list_tail_small = omega arith;
          joined = omega (arith, tail);
          fits = omega arith;
          aligned = λ j less. absurd (omega arith);
        };
        cq_valid = record {
          order = maps.cq_order;
          mask = cq_mask;
          size = cq_size;
          head_small = omega (arith, cq_head);
          tail_small = omega (arith, cq_tail);
          fits = omega arith;
        };
        none_waiting =
            ap₂ ◌++◌
              (ap
                (λ n. window (λ c. entry_of u.sqes (get_elem? u.sq_array (slot ks c))) u.sq_head n)
                none_published)
              (ap (λ n. window (λ c. get_elem? u.sqes (slot ks c)) u.sq_list_head n) none_taken);
        none_arrived = ap (λ n. window (λ c. get_elem? u.cqes (slot kc c)) u.cq_head n) none_came;
      }

-- What uring_init, called in `v`, leaves of the world `before`: an empty queue, with the descriptor
-- that io_uring_setup gave, and the rest as it was; or it exits where io_uring_setup fails or gives
-- no single mapping of both rings; or a mapping fails, and it writes the place and stops at the text
-- of the error, which has ended.
pub data Starts (ks kc : ℕ) (k : Kernel) (b : Build) (size : ℕ) (before v : World)
    : Outcome Uring → Type 0 where
  makes :
      {u : Uring} {w : World}
      → IsEmpty ks kc u
      → u.ringfd ≡ k.rax v.calls (Wrappers.io_uring_setup size)
      → Same before w
      → Starts ks kc k b size before v (returned u w)
  refused :
      {w : World} (n : ℕ)
      → k.rax v.calls (Wrappers.io_uring_setup size) ≡ negsuc n
      → Starts ks kc k b size before v (stopped (exited 1) w)
  two_mappings :
      {w : World}
      → Params.single_mmap (k.fields v.calls (Wrappers.io_uring_setup size)) ≡ 0
      → Starts ks kc k b size before v (stopped (exited 1) w)
  fails :
      {w : World} (line : Text) (c : Call) (calls : List Call) (n : ℕ)
      → c.number ≡ Number.mmap
      → k.rax calls c ≡ negsuc n
      → w.calls
        ≡ Wrappers.write stdout ((b.uring_ctl_c ++ line) ++ codes " syscall error ") ∷ c ∷ calls
      → Starts ks kc k b size before v (stopped undefined w)

module _ (ks kc reads size : ℕ) (k : Kernel) (pending : List Call → List ℕ) (b : Build)
    (contract : Contract ks kc reads size k b pending) (before : World) (entries : ℕ)
    (v : World) where
  abbrev Begins : Outcome Uring → Type 0
  Begins = Starts ks kc k b entries before v

  checked_Starts :
      (line : Text) (c : Call) (w : World) (next : ℤ → Program Uring)
      → c.number ≡ Number.mmap
      → Begins (next (k.rax w.calls c) (record_call c w))
      → Begins
          (and_then (syscheck k (b.uring_ctl_c ++ line) (k.rax w.calls c) (record_call c w)) next)
  checked_Starts line c w next is_map onward =
      elim (syscheck_cases k (b.uring_ctl_c ++ line) (k.rax w.calls c) (record_call c w)
        (contract.wide w.calls c)) [
          | inl e ↦ rw e onward
          | inr (n, failed, e) ↦ rw e (fails line c w.calls n is_map failed refl)
        ]

  abbrev setup : Call
  setup = Wrappers.io_uring_setup entries

  set_up-Starts :
      (fd : ℤ)
      → k.rax v.calls setup ≡ fd
      → Same before (record_call setup v)
      → Begins (set_up k b fd (k.fields v.calls setup) (record_call setup v))
  unfolding set_up
  set_up-Starts (negsuc n) e s = refused n e
  set_up-Starts (pos fd) e s =
      let p = k.fields v.calls setup in
      elim (Bool-cases (Params.single_mmap p == 0)) [
        | inl not_single ↦
            rw not_single (two_mappings ((==_iff (Params.single_mmap p) 0).0 not_single))
        | inr single ↦
            let c1 = map_call (pos fd) (ring_size b p) Constant.ioring_off_sq_ring in
            let c2 = map_call (pos fd) (sqes_size b p) Constant.ioring_off_sqes in
            let w1 = record_call c1 (record_call setup v) in
            let maps = contract.maps (pos fd) entries (ring_size b p) (sqes_size b p) v.calls e in
            rw single (
              checked_Starts (codes ":32") c1 (record_call setup v) _ refl (
                checked_Starts (codes ":56") c2 w1 _ refl (
                  makes (queue-IsEmpty ks kc b p _ maps (pos fd) _ _) (unfold queue_at in sym e)
                    (calls_Same s (later refl (later refl s.quiet))))))
      ]

  pub uring_init-Starts : Same before v → Begins (uring_init k b entries v)
  unfolding uring_init
  uring_init-Starts s = set_up-Starts (k.rax v.calls setup) refl (calls_Same s (later refl s.quiet))
