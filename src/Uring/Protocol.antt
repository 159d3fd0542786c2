-- ===== src/Uring/Protocol.antt =====
-- The program and the kernel at the two rings, in any order of their steps: what the program
-- submitted is what the kernel consumed, what it may still read, and what is not handed over yet.
use minlinux.Base.{
  ℕ, ◌+◌, ◌-◌, ◌≤◌, ◌≡◌, sym, ap, ap₂, ◌∙◌, Option, some, List, [], ◌∷◌, ◌++◌, append_assoc,
  append-nil, take, take-append, arith, u32, set, get_elem?, inl, inr,
}
use minlinux.Memory.{ok}
use minlinux.Uring.{Uring, Sqe, Cqe, uring_new_submission, uring_advance, flush, fill}
use minlinux.Uring.Window.{window, window-add, length-window}
use minlinux.Uring.Valid.{slot, published, IsValid, visible, queued, entry_of}
use minlinux.Uring.Loop.{order-bound}
use minlinux.Uring.Flush.{flush-FlushesAll}
use minlinux.Uring.Submit.{uring_new_submission_lem}

-- The kernel takes the first `n` entries that it can see.
abbrev pub consume : Uring → ℕ → Uring
consume u n = record u { sq_head = u32 (u.sq_head + n) }

-- The kernel adds a completion to a ring of 2^kc entries.
abbrev pub complete : ℕ → Uring → Cqe → Uring
complete kc u e = record u {
  cqes = set u.cqes (slot kc u.cq_tail) e;
  cq_tail = u32 (u.cq_tail + 1);
}

-- The queue `u`, reached from `start` by steps in which the program submitted `sent` and the kernel
-- consumed `done`.
pub data Reach (k kc : ℕ) (start : Uring) : Uring → (sent done : List (Option Sqe)) → Type 0 where
  begin : Reach k kc start start [] []
  submits :
      {u : Uring} {sent done : List (Option Sqe)}
      → Reach k kc start u sent done
      → (e : Sqe) (i : ℕ) (after : Uring) → uring_new_submission u ≡ (some i, after)
      → Reach k kc start (fill after i e) (sent ++ (some e ∷ [])) done
  hands_over :
      {u : Uring} {sent done : List (Option Sqe)}
      → Reach k kc start u sent done
      → (n : ℕ) (after : Uring) → flush u ≡ ok (n, after)
      → Reach k kc start after sent done
  consumes :
      {u : Uring} {sent done : List (Option Sqe)}
      → Reach k kc start u sent done
      → (n : ℕ) → n ≤ published u
      → Reach k kc start (consume u n) sent (done ++ take n (visible k u))
  completes :
      {u : Uring} {sent done : List (Option Sqe)}
      → Reach k kc start u sent done
      → (e : Cqe) → Reach k kc start (complete kc u e) sent done
  advances :
      {u : Uring} {sent done : List (Option Sqe)}
      → Reach k kc start u sent done
      → Reach k kc start (uring_advance u) sent done

module _ (k : ℕ) (u : Uring) (v : IsValid k u) (n : ℕ) (enough : n ≤ published u) where
  fewer : published (consume u n) ≡ published u - n
  fewer = omega (arith, order-bound k v.order, v.fits, v.head_small, v.tail_small)

  pub consume-IsValid : IsValid k (consume u n)
  consume-IsValid = record {
    order = v.order;
    entries = v.entries;
    mask = v.mask;
    array_size = v.array_size;
    sqes_size = v.sqes_size;
    head_small = omega arith;
    tail_small = v.tail_small;
    list_tail_small = v.list_tail_small;
    joined = v.joined;
    fits = omega (arith, fewer, v.fits);
    aligned = λ j less.
        let e : u32 (u.sq_head + (n + j)) ≡ u32 (u32 (u.sq_head + n) + j) = omega arith in
        rw e at (v.aligned (n + j) (omega (arith, fewer)));
  }

  split_visible : visible k u ≡ take n (visible k u) ++ visible k (consume u n)
  split_visible =
      let f : ℕ → Option Sqe = λ c. entry_of u.sqes (get_elem? u.sq_array (slot k c)) in
      let first = window f u.sq_head n in
      let e : published u ≡ n + (published u - n) = omega arith in
      let whole : visible k u ≡ first ++ visible k (consume u n) =
        ap (λ m. window f u.sq_head m) e
        ∙ window-add f u.sq_head n (published u - n) v.head_small
        ∙ ap (λ m. first ++ window f (u32 (u.sq_head + n)) m) (sym fewer) in
      let taken_off : take n (visible k u) ≡ first =
        ap (take n) whole
        ∙ take-append n first (visible k (consume u n)) (length-window f u.sq_head n) in
      whole ∙ ap (λ l. l ++ visible k (consume u n)) (sym taken_off)

-- The submission side does not depend on the completion ring.
pub cq_apart :
    (k : ℕ) (u : Uring) (cqes : List Cqe) (head tail : ℕ)
    → IsValid k u
    → IsValid k (record u { cqes = cqes; cq_head = head; cq_tail = tail })
cq_apart k u cqes head tail v = record {
  order = v.order;
  entries = v.entries;
  mask = v.mask;
  array_size = v.array_size;
  sqes_size = v.sqes_size;
  head_small = v.head_small;
  tail_small = v.tail_small;
  list_tail_small = v.list_tail_small;
  joined = v.joined;
  fits = v.fits;
  aligned = v.aligned;
}

-- The ring is well formed, and what was submitted is, in order, what the kernel consumed, what it
-- may read, and what it has not been handed.
pub record Accounts (k : ℕ) (u : Uring) (sent done : List (Option Sqe)) : Type 0 where
  pub valid : IsValid k u
  pub balance : sent ≡ done ++ (visible k u ++ queued k u)

Accounts-submits :
    (k : ℕ) (u : Uring) (sent done : List (Option Sqe)) (e : Sqe) (i : ℕ) (after : Uring)
    → Accounts k u sent done
    → uring_new_submission u ≡ (some i, after)
    → Accounts k (fill after i e) (sent ++ (some e ∷ [])) done
Accounts-submits k u sent done e i after a got = elim (uring_new_submission_lem k u e a.valid) [
  | inl (_, refused) ↦ cc
  | inr (_, t) ↦
      let ei : i ≡ t.index = cc (t.returns) in
      let ea : after ≡ t.after = cc (t.returns) in
      rw (ei, ea)
        (record {
          valid = t.valid;
          balance =
              ap (λ l. l ++ (some e ∷ [])) a.balance
              ∙ append_assoc done (visible k u ++ queued k u) (some e ∷ [])
              ∙ ap (λ l. done ++ l) (append_assoc (visible k u) (queued k u) (some e ∷ []))
              ∙ ap₂ (λ x y. done ++ (x ++ y)) (sym t.same_visible) (sym t.at_end);
        })
]

Accounts-hands_over :
    (k : ℕ) (u : Uring) (sent done : List (Option Sqe)) (n : ℕ) (after : Uring)
    → Accounts k u sent done
    → flush u ≡ ok (n, after)
    → Accounts k after sent done
Accounts-hands_over k u sent done n after a ran =
    let f = flush-FlushesAll k u a.valid in
    let ea : after ≡ f.after = cc (f.returns) in
    rw ea (record {
      valid = f.valid;
      balance =
          a.balance
          ∙ ap (λ l. done ++ l)
              (sym (append-nil _) ∙ ap₂ ◌++◌ (sym f.handed_over) (sym f.none_left));
    })

Accounts-consumes :
    (k : ℕ) (u : Uring) (sent done : List (Option Sqe)) (n : ℕ)
    → Accounts k u sent done
    → n ≤ published u
    → Accounts k (consume u n) sent (done ++ take n (visible k u))
Accounts-consumes k u sent done n a enough =
    let first = take n (visible k u) in
    let rest = visible k (consume u n) in
    record {
      valid = consume-IsValid k u a.valid n enough;
      balance =
          a.balance
          ∙ ap (λ l. done ++ (l ++ queued k u)) (split_visible k u a.valid n enough)
          ∙ ap (λ l. done ++ l) (append_assoc first rest (queued k u))
          ∙ sym (append_assoc done first (rest ++ queued k u));
    }

-- From a well-formed ring with nothing in it, in every interleaving of submissions, flushes and
-- advances of the program with consumptions and completions of the kernel, the submission ring
-- stays well formed and no entry is lost, repeated or overtaken: the kernel consumes what was
-- submitted in the order of submission.
pub Reach-Accounts :
    (k kc : ℕ) (start u : Uring) (sent done : List (Option Sqe))
    → IsValid k start
    → visible k start ≡ []
    → queued k start ≡ []
    → Reach k kc start u sent done
    → Accounts k u sent done
unfolding uring_advance
Reach-Accounts k kc start _ _ _ v e1 e2 begin = record {
  valid = v;
  balance = ap₂ ◌++◌ (sym e1) (sym e2);
}
Reach-Accounts k kc start _ _ _ v e1 e2 (submits {u} {sent} {done} r e i after got) =
    Accounts-submits k u sent done e i after (Reach-Accounts k kc start u sent done v e1 e2 r) got
Reach-Accounts k kc start _ _ _ v e1 e2 (hands_over {u} {sent} {done} r n after ran) =
    Accounts-hands_over k u sent done n after (Reach-Accounts k kc start u sent done v e1 e2 r) ran
Reach-Accounts k kc start _ _ _ v e1 e2 (consumes {u} {sent} {done} r n enough) =
    Accounts-consumes k u sent done n (Reach-Accounts k kc start u sent done v e1 e2 r) enough
Reach-Accounts k kc start _ _ _ v e1 e2 (completes {u} {sent} {done} r e) =
    let a = Reach-Accounts k kc start u sent done v e1 e2 r in
    record {
      valid =
          cq_apart k u (set u.cqes (slot kc u.cq_tail) e) u.cq_head (u32 (u.cq_tail + 1)) a.valid;
      balance = a.balance;
    }
Reach-Accounts k kc start _ _ _ v e1 e2 (advances {u} {sent} {done} r) =
    let a = Reach-Accounts k kc start u sent done v e1 e2 r in
    record {
      valid = cq_apart k u u.cqes (u32 (u.cq_head + 1)) u.cq_tail a.valid;
      balance = a.balance;
    }
