-- ===== src/Uring/Arrive.antt =====
-- The kernel's side of the completion ring: one more completion.
use minlinux.Base.{
  ℕ, ◌+◌, ◌^◌, ◌<◌, ◌≡◌, ap, ap₂, ◌∙◌, Option, some, [], ◌∷◌, ◌++◌, arith, get_elem?, set, u32,
  get_elem?-set_self, get_elem?-set_ne, length-set,
}
use minlinux.Uring.{Uring, Cqe}
use minlinux.Uring.Window.{window, window_ext, window-add}
use minlinux.Uring.Valid.{slot}
use minlinux.Uring.Loop.{order-bound, slot-lt, slots_apart}
use minlinux.Uring.Complete.{arrived, IsCqValid, completions}
use minlinux.Uring.Protocol.{complete}

module _ (k : ℕ) (u : Uring) (e : Cqe) (v : IsCqValid k u) (room : arrived u < 2 ^ k) where
  after : Uring
  after = complete k u e

  one_more : arrived after ≡ arrived u + 1
  unfolding after
  one_more = omega (arith, order-bound k v.order, v.head_small, v.tail_small)

  behind : u32 (u.cq_head + arrived u) ≡ u.cq_tail
  behind = omega (arith, v.head_small, v.tail_small)

  pub complete-IsCqValid : IsCqValid k (complete k u e)
  unfolding after
  complete-IsCqValid = record {
    order = v.order;
    mask = v.mask;
    size = length-set u.cqes (slot k u.cq_tail) e ∙ v.size;
    head_small = v.head_small;
    tail_small = omega arith;
    fits = omega (arith, one_more);
  }

  -- A completion put into the ring while it has room stands behind those not yet passed, which are
  -- as they were.
  pub completions-complete : completions k (complete k u e) ≡ completions k u ++ (some e ∷ [])
  unfolding after
  completions-complete =
      let f : ℕ → Option Cqe = λ c. get_elem? (set u.cqes (slot k u.cq_tail) e) (slot k c) in
      let g : ℕ → Option Cqe = λ c. get_elem? u.cqes (slot k c) in
      let older : window f u.cq_head (arrived u) ≡ window g u.cq_head (arrived u) =
        window_ext f g u.cq_head (arrived u) v.head_small (λ j less.
          get_elem?-set_ne u.cqes (slot k u.cq_tail) (slot k (u32 (u.cq_head + j))) e
            (rw (← behind) (slots_apart k v.order u.cq_head j (arrived u) less (omega arith)))) in
      let newest : f u.cq_tail ≡ some e =
        get_elem?-set_self u.cqes (slot k u.cq_tail) e
          (omega (arith, slot-lt k v.order u.cq_tail, v.size)) in
      ap (λ n. window f u.cq_head n) one_more
      ∙ window-add f u.cq_head (arrived u) 1 v.head_small
      ∙ ap₂ ◌++◌ older (ap (λ c. f c ∷ []) behind ∙ ap (λ s. s ∷ []) newest)
