-- ===== src/Uring/Wait.antt =====
-- util/uring_ctl.c: uring_wait with a kernel that keeps the contract of io_uring.
use minlinux.Base.{
  ℕ, ◌⊎◌, inl, inr, ◌+◌, ◌≡◌, refl, sym, ap, ap₂, ◌∙◌, Option, List, [], ◌∷◌, ◌++◌, All, arith,
  length, length-append, get_elem?, codes,
}
use minlinux.Base.Int.{ℤ, pos, negsuc, IsInt64}
use minlinux.Uring.{Uring, Sqe, flush}
use minlinux.Uring.Window.{window, length-window}
use minlinux.Uring.Valid.{slot, published, taken, IsValid, visible, queued, entry_of}
use minlinux.Uring.Flush.{FlushesAll, flush-FlushesAll}
use minlinux.Uring.Complete.{IsCqValid, completions}
use minlinux.Uring.Calls.{uring_wait, enter_call, handed_back}
use minlinux.Uring.Contract.{count, requests, answers, Sound, Asks, handed, Entered, Contract}
use minlinux.System.{
  Kernel, World, Outcome, returned, stopped, undefined, Unit0, and_then, skip, record_call,
}
use minlinux.System.Abi.{Call}
use minlinux.System.Wrappers
use minlinux.System.Print.{Build, syscheck, stdout}
use minlinux.System.Print.Laws.{syscheck-Checks, syscheck_cases}
use minlinux.Uring.Tally.{
  count-append, answers-append, All-append, completions_same, IsCqValid-same,
}

length-visible : (ks : ℕ) (u : Uring) → length (visible ks u) ≡ published u
length-visible ks u =
    length-window (λ c. entry_of u.sqes (get_elem? u.sq_array (slot ks c))) u.sq_head (published u)

length-queued : (ks : ℕ) (u : Uring) → length (queued ks u) ≡ taken u
length-queued ks u = length-window (λ c. get_elem? u.sqes (slot ks c)) u.sq_list_head (taken u)

-- The entries waiting in a ring, for the kernel or for the next flush.
abbrev pub waiting : ℕ → Uring → List (Option Sqe)
waiting ks u = visible ks u ++ queued ks u

-- `c` is the io_uring_enter call for every entry waiting in `w`.
pub record HandsOver (ks : ℕ) (w : World) (wanted : ℕ) (c : Call) : Type 0 where
  pub flushed : Uring
  pub is_call : c ≡ enter_call flushed (length (waiting ks w.uring)) wanted
  pub shows : visible ks flushed ≡ waiting ks w.uring

module _ (ks kc reads size : ℕ) (pending : List Call → List ℕ) where
  -- How many requests of a kind are under way: waiting, pending in the kernel, or complete and not
  -- yet passed by the program.
  abbrev pub tokens : ℕ → World → ℕ
  tokens x w =
      count x (answers (completions kc w.uring))
      + count x (pending w.calls)
      + count x (requests (waiting ks w.uring))

  -- Both rings are well formed, and what has arrived is sound.
  pub record Alive (w : World) : Type 0 where
    pub valid : IsValid ks w.uring
    pub cq_valid : IsCqValid kc w.uring
    pub sound : All (Sound reads size) (completions kc w.uring)
    pub asked : All (Asks reads size) (waiting ks w.uring ++ handed ks w.calls)
    pub line : length w.buffer ≡ size

  -- Where the call succeeds, uring_wait comes back after it; where it fails, the place of the failed
  -- call is written, and the text of the error has ended.
  pub data Waits (k : Kernel) (b : Build) (wanted : ℕ) (w : World) : Outcome Unit0 → Type 0 where
    returns :
        {w' : World} (c : Call) (n : ℕ)
        → HandsOver ks w wanted c
        → k.rax w.calls c ≡ pos n
        → w'.calls ≡ c ∷ w.calls
        → Alive w'
        → ((x : ℕ) → tokens x w' ≡ tokens x w)
        → waiting ks w'.uring ≡ []
        → Waits k b wanted w (returned tt w')
    fails :
        {w' : World} (c : Call) (n : ℕ)
        → HandsOver ks w wanted c
        → k.rax w.calls c ≡ negsuc n
        → w'.calls
          ≡ Wrappers.write stdout ((b.uring_ctl_c ++ codes ":138") ++ codes " syscall error ")
            ∷ c
            ∷ w.calls
        → Waits k b wanted w (stopped undefined w')

-- The submission ring once the kernel has taken every entry that it could see.
module _ (ks kc reads size : ℕ) (u after : Uring) (seen : List (Option Sqe)) (pend pend' : List ℕ)
    (v : IsValid ks u) (none_left : queued ks u ≡ [])
    (ent : Entered ks kc reads size u after seen pend pend') where
  all_taken : published (handed_back u after) ≡ 0
  all_taken = omega (arith, ent.consumed, ent.same_sq.4, v.tail_small)

  none_taken : taken u ≡ 0
  none_taken =
      sym (length-window (λ c. get_elem? u.sqes (slot ks c)) u.sq_list_head (taken u))
      ∙ ap (λ l. length l) none_left

  back-IsValid : IsValid ks (handed_back u after)
  back-IsValid =
      let same = ent.same_sq in
      record {
        order = v.order;
        entries = same.0 ∙ v.entries;
        mask = same.1 ∙ v.mask;
        array_size = ap (λ l. length l) same.2 ∙ v.array_size;
        sqes_size = ap (λ l. length l) same.3 ∙ v.sqes_size;
        head_small = omega (arith, ent.consumed, v.tail_small);
        tail_small = omega (arith, same.4, v.tail_small);
        list_tail_small = v.list_tail_small;
        joined = v.joined ∙ sym same.4;
        fits = omega (arith, all_taken, none_taken);
        aligned = λ j less. absurd (omega (arith, all_taken, less));
      }

  back-waiting : waiting ks (handed_back u after) ≡ []
  back-waiting =
      let back = handed_back u after in
      let f : ℕ → Option Sqe = λ c. entry_of back.sqes (get_elem? back.sq_array (slot ks c)) in
      let g : ℕ → Option Sqe = λ c. get_elem? back.sqes (slot ks c) in
      ap₂ ◌++◌ (ap (λ n. window f back.sq_head n) all_taken)
        (ap (λ n. window g u.sq_list_head n) none_taken)

module _ (ks kc reads size : ℕ) (k : Kernel) (pending : List Call → List ℕ) (b : Build)
    (contract : Contract ks kc reads size k b pending) where
  module _ (w : World) (wanted : ℕ) (a : Alive ks kc reads size pending w) where
    pub f : FlushesAll ks w.uring (flush w.uring)
    f = flush-FlushesAll ks w.uring a.valid

    -- The queue, the call and the rings after it.
    abbrev pub flushed : Uring
    flushed = f.after

    abbrev pub enters : Call
    enters = enter_call flushed (published flushed) wanted

    abbrev pub after : Uring
    after = k.rings (enters ∷ w.calls) flushed

    abbrev pub next : World
    next = record w {
      calls = enters ∷ w.calls;
      uring = handed_back flushed after;
      buffer = k.lines (enters ∷ w.calls) w.buffer;
    }

    number : published w.uring + taken w.uring ≡ published flushed
    number = omega (
      arith,
      length-visible ks w.uring,
      length-queued ks w.uring,
      length-visible ks flushed,
      ap (λ l. length l) f.handed_over,
      length-append (visible ks w.uring) (queued ks w.uring),
    )

    pub ent :
        Entered ks kc reads size flushed after
          (handed ks (enters ∷ w.calls))
          (pending w.calls)
          (pending (enters ∷ w.calls))
    ent =
        contract.enters flushed w.calls wanted f.valid
          (IsCqValid-same kc w.uring flushed f.same_completions a.cq_valid)

    pub back_waiting : waiting ks (handed_back flushed after) ≡ []
    back_waiting = back-waiting ks kc reads size flushed after _ _ _ f.valid f.none_left ent

    pub arrives : completions kc after ≡ completions kc w.uring ++ ent.arrived
    arrives =
        ent.completed
        ∙ ap (λ l. l ++ ent.arrived) (completions_same kc w.uring flushed f.same_completions)

    seen_Asks : All (Asks reads size) (handed ks (enters ∷ w.calls))
    seen_Asks = rw (f.handed_over) (a.asked)

    hands-HandsOver : HandsOver ks w wanted enters
    hands-HandsOver = record {
      flushed = flushed;
      is_call =
          ap (λ n. enter_call flushed n wanted)
            (sym (length-visible ks flushed) ∙ ap (λ l. length l) f.handed_over);
      shows = f.handed_over;
    }

    pub next-Alive : Alive ks kc reads size pending next
    next-Alive = record {
      valid = back-IsValid ks kc reads size flushed after _ _ _ f.valid f.none_left ent;
      cq_valid =
          IsCqValid-same kc after (handed_back flushed after) (refl, refl, refl, refl) ent.cq_valid;
      sound = rw arrives (
          All-append (Sound reads size) (completions kc w.uring) ent.arrived a.sound
            (ent.sound seen_Asks));
      asked = rw back_waiting seen_Asks;
      line = contract.same_size (enters ∷ w.calls) w.buffer ∙ a.line;
    }

    pub same_tokens :
        (x : ℕ) → tokens ks kc reads size pending x next ≡ tokens ks kc reads size pending x w
    same_tokens x = omega (
      arith,
      ap (λ l. count x (answers l)) arrives,
      ap (λ l. count x l) (answers-append (completions kc w.uring) ent.arrived),
      count-append x (answers (completions kc w.uring)) (answers ent.arrived),
      ap (λ l. count x (requests l)) back_waiting,
      ap (λ l. count x (requests l)) f.handed_over,
      ent.tokens x,
    )

    checked_Waits :
        (res : ℤ)
        → k.rax w.calls enters ≡ res
        → IsInt64 res
        → Waits ks kc reads size pending k b wanted w
            (and_then (syscheck k (b.uring_ctl_c ++ codes ":138") res next) (λ _. skip))
    checked_Waits (pos n) e small =
        rw (syscheck-Checks k (b.uring_ctl_c ++ codes ":138") (pos n) next small)
          (returns enters n hands-HandsOver e refl next-Alive same_tokens back_waiting)
    checked_Waits (negsuc n) e small =
        rw (syscheck-Checks k (b.uring_ctl_c ++ codes ":138") (negsuc n) next small)
          (fails enters n hands-HandsOver e refl)

    pub uring_wait-Waits : Waits ks kc reads size pending k b wanted w (uring_wait k b wanted w)
    unfolding uring_wait
    uring_wait-Waits =
        rw (f.returns, number)
          (checked_Waits (k.rax w.calls enters) refl (contract.wide w.calls enters))

    -- uring_wait comes back in that world, or stops where the text of an error has ended.
    pub uring_wait_cases :
        (uring_wait k b wanted w ≡ returned tt next)
        ⊎ ((w' : World) × (uring_wait k b wanted w ≡ stopped undefined w'))
    unfolding uring_wait
    uring_wait_cases =
        rw (f.returns, number)
          (elim (syscheck_cases k (b.uring_ctl_c ++ codes ":138") (k.rax w.calls enters) next
            (contract.wide w.calls enters)) [
              | inl e ↦ inl (rw e refl)
              | inr (n, failed, e) ↦ inr (
                record_call
                    (Wrappers.write stdout
                      ((b.uring_ctl_c ++ codes ":138") ++ codes " syscall error "))
                    next,
                rw e refl,
              )
            ])
