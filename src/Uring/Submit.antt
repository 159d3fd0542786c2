-- ===== src/Uring/Submit.antt =====
-- util/uring_ctl.c: uring_new_submission, and the entry that its caller writes.
use native.Mathlib.Decide.{dec_lt}
use minlinux.Base.{
  ℕ, ◌+◌, ◌^◌, ◌<◌, ◌≡◌, ◌⊎◌, inl, inr, sym, refl, ap, ap₂, ◌∙◌, Option, none, some, [], ◌∷◌, ◌++◌,
  arith, length, get_elem?, set, u32, sub32, get_elem?-set_self, get_elem?-set_ne, length-set,
}
use minlinux.Base.Bits.{bit_and_mask}
use minlinux.Uring.{Uring, Sqe, uring_new_submission, fill}
use minlinux.Uring.Window.{window, window_ext, window-add}
use minlinux.Uring.Valid.{slot, published, taken, IsValid, visible, queued}
use minlinux.Uring.Loop.{order-bound, slot-lt, slots_apart, visible_of_Aligned}
use minlinux.Uring.Flush.{meets}

-- An entry was taken, and once `e` is written to it the ring holds `e` behind the others.
pub record Takes (k : ℕ) (u : Uring) (e : Sqe) (result : Option ℕ × Uring) : Type 0 where
  pub index : ℕ
  pub after : Uring
  pub returns : result ≡ (some index, after)
  pub inside : index < length after.sqes
  pub valid : IsValid k (fill after index e)
  pub same_visible : visible k (fill after index e) ≡ visible k u
  pub at_end : queued k (fill after index e) ≡ queued k u ++ (some e ∷ [])
  pub same_completions :
      (after.cqes ≡ u.cqes)
      × (after.cq_head ≡ u.cq_head)
      × (after.cq_tail ≡ u.cq_tail)
      × (after.cq_mask ≡ u.cq_mask)

module _ (k : ℕ) (u : Uring) (v : IsValid k u) where
  test_reads : sub32 (u32 (u.sq_list_tail + 1)) u.sq_head ≡ published u + taken u + 1
  test_reads = omega (
    arith,
    order-bound k v.order,
    v.fits,
    v.joined,
    v.head_small,
    v.tail_small,
    v.list_tail_small,
  )

  full_returns : published u + taken u ≡ 2 ^ k → uring_new_submission u ≡ (none, u)
  unfolding uring_new_submission
  full_returns full = ground (arith, test_reads, v.entries)

  place : ℕ
  place = slot k u.sq_list_tail

  module _ (e : Sqe) (room : published u + taken u < 2 ^ k) where
    filled : Uring
    filled = fill (record u { sq_list_tail = u32 (u.sq_list_tail + 1) }) place e

    one_more : taken filled ≡ taken u + 1
    unfolding filled place
    one_more =
        omega (arith, order-bound k v.order, v.fits, v.joined, v.tail_small, v.list_tail_small)

    filled-IsValid : IsValid k filled
    unfolding filled place
    filled-IsValid = record {
      order = v.order;
      entries = v.entries;
      mask = v.mask;
      array_size = v.array_size;
      sqes_size = length-set u.sqes place e ∙ v.sqes_size;
      head_small = v.head_small;
      tail_small = v.tail_small;
      list_tail_small = omega arith;
      joined = v.joined;
      fits = omega (arith, one_more);
      aligned = v.aligned;
    }

    -- Every counter before the new one keeps its entry.
    kept :
        (j : ℕ)
        → j < published u + taken u
        → get_elem? (set u.sqes place e) (slot k (u32 (u.sq_head + j)))
          ≡ get_elem? u.sqes (slot k (u32 (u.sq_head + j)))
    unfolding place
    kept j less = get_elem?-set_ne u.sqes place (slot k (u32 (u.sq_head + j))) e (
        rw (← meets k u v)
          (slots_apart k v.order u.sq_head j (published u + taken u) less (omega arith)))

    filled-visible : visible k filled ≡ visible k u
    unfolding filled place
    filled-visible =
        visible_of_Aligned k filled (published u) v.head_small v.aligned
        ∙ window_ext _ _ u.sq_head (published u) v.head_small (λ j less. kept j (omega arith))
        ∙ sym (visible_of_Aligned k u (published u) v.head_small v.aligned)

    filled-queued : queued k filled ≡ queued k u ++ (some e ∷ [])
    unfolding filled place
    filled-queued =
        let f : ℕ → Option Sqe = λ c. get_elem? (set u.sqes place e) (slot k c) in
        let g : ℕ → Option Sqe = λ c. get_elem? u.sqes (slot k c) in
        let head_small : u.sq_list_head < 2 ^ 32 = omega (arith, v.joined, v.tail_small) in
        let older : window f u.sq_list_head (taken u) ≡ window g u.sq_list_head (taken u) =
          window_ext f g u.sq_list_head (taken u) head_small (λ j less.
            let same : u32 (u.sq_head + (published u + j)) ≡ u32 (u.sq_list_head + j) =
              omega (arith, v.joined, v.head_small, v.tail_small) in
            rw same at (kept (published u + j) (omega arith))) in
        let reach : u32 (u.sq_list_head + taken u) ≡ u.sq_list_tail =
          omega (arith, v.joined, v.tail_small, v.list_tail_small) in
        let newest : f (u32 (u.sq_list_head + taken u)) ≡ some e = rw reach (
          get_elem?-set_self u.sqes place e
            (unfold place in omega (arith, slot-lt k v.order u.sq_list_tail, v.sqes_size))) in
        ap (λ n. window f u.sq_list_head n) one_more
        ∙ window-add f u.sq_list_head (taken u) 1 head_small
        ∙ ap₂ ◌++◌ older (ap (λ s. s ∷ []) newest)

    takes : Takes k u e (uring_new_submission u)
    unfolding uring_new_submission place filled
    takes = record {
      index = place;
      after = record u { sq_list_tail = u32 (u.sq_list_tail + 1) };
      returns = rw (v.mask, bit_and_mask) (ground (arith, test_reads, v.entries));
      inside = omega (arith, slot-lt k v.order u.sq_list_tail, v.sqes_size);
      valid = filled-IsValid;
      same_visible = filled-visible;
      at_end = filled-queued;
      same_completions = (refl, refl, refl, refl);
    }

-- On a well-formed ring uring_new_submission gives NULL and changes nothing when all 2^k entries
-- are in use. Otherwise it gives an index inside `sqes`, and once its caller has written an entry
-- there, that entry is the last of those taken, what the kernel may read is unchanged, and the ring
-- is well formed.
pub uring_new_submission_lem :
    (k : ℕ) (u : Uring) (e : Sqe)
    → IsValid k u
    → (published u + taken u ≡ 2 ^ k) × (uring_new_submission u ≡ (none, u))
      ⊎ (published u + taken u < 2 ^ k) × Takes k u e (uring_new_submission u)
uring_new_submission_lem k u e v = elim (dec_lt (published u + taken u) (2 ^ k)) [
  | yes room ↦ inr (room, takes k u v e room)
  | no full ↦
      let all : published u + taken u ≡ 2 ^ k = omega (arith, v.fits) in
      inl (all, full_returns k u v all)
]
