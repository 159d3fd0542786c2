-- ===== src/Uring/Complete.antt =====
-- util/uring_ctl.c: uring_result and uring_advance, the program's side of the completion ring.
use minlinux.Base.{
  ℕ, zero, suc, ◌+◌, ◌-◌, ◌^◌, ◌≤◌, ◌<◌, ◌≡◌, ◌⊎◌, inl, inr, refl, ap, ◌∙◌, Option, none, some,
  List, [], ◌∷◌, arith, length, get_elem?, u32, sub32, get_elem?_inside, ◌≢◌,
}
use minlinux.Base.Bits.{bit_and_mask}
use minlinux.Uring.{Uring, Cqe, uring_result, uring_advance}
use minlinux.Uring.Window.{window}
use minlinux.Uring.Valid.{slot}
use minlinux.Uring.Loop.{slot-lt}

-- Completions that the program has not yet passed.
abbrev pub arrived : Uring → ℕ
arrived u = sub32 u.cq_tail u.cq_head

-- A completion ring of 2^k entries.
pub record IsCqValid (k : ℕ) (u : Uring) : Type 0 where
  pub order : k < 32
  pub mask : u.cq_mask ≡ 2 ^ k - 1
  pub size : length u.cqes ≡ 2 ^ k
  pub head_small : u.cq_head < 2 ^ 32
  pub tail_small : u.cq_tail < 2 ^ 32
  pub fits : arrived u ≤ 2 ^ k

-- They in order of arrival.
abbrev pub completions : ℕ → Uring → List (Option Cqe)
completions k u = window (λ c. get_elem? u.cqes (slot k c)) u.cq_head (arrived u)

-- The oldest completion is at `index`, and advancing passes it and nothing else.
pub record Yields (k : ℕ) (u : Uring) : Type 0 where
  pub index : ℕ
  pub cqe : Cqe
  pub rest : List (Option Cqe)
  pub returns : uring_result u ≡ some index
  pub found : get_elem? u.cqes index ≡ some cqe
  pub oldest : completions k u ≡ some cqe ∷ rest
  pub others : completions k (uring_advance u) ≡ rest
  pub valid : IsCqValid k (uring_advance u)

module _ (k : ℕ) (u : Uring) (v : IsCqValid k u) where
  empty_returns : arrived u ≡ 0 → (uring_result u ≡ none) × (completions k u ≡ [])
  unfolding uring_result
  empty_returns e =
      let same : u.cq_head ≡ u.cq_tail = omega (arith, v.head_small, v.tail_small) in
      (ground arith, ap (λ n. window (λ c. get_elem? u.cqes (slot k c)) u.cq_head n) e)

  yields : (n : ℕ) → arrived u ≡ suc n → Yields k u
  unfolding uring_result uring_advance
  yields n e =
      let (cqe, found) =
        get_elem?_inside u.cqes (slot k u.cq_head)
          (omega (arith, slot-lt k v.order u.cq_head, v.size)) in
      let differ : u.cq_head ≢ u.cq_tail = λ same. omega (arith, v.head_small, v.tail_small) in
      let one_less : sub32 u.cq_tail (u32 (u.cq_head + 1)) ≡ n =
        omega (arith, v.head_small, v.tail_small) in
      let g : ℕ → Option Cqe = λ c. get_elem? u.cqes (slot k c) in
      record {
        index = slot k u.cq_head;
        cqe = cqe;
        rest = window g (u32 (u.cq_head + 1)) n;
        returns = rw (v.mask, bit_and_mask) (ground arith);
        found = found;
        oldest =
            ap (λ a. window g u.cq_head a) e ∙ ap (λ c. c ∷ window g (u32 (u.cq_head + 1)) n) found;
        others = ap (λ a. window g (u32 (u.cq_head + 1)) a) one_less;
        valid = record {
          order = v.order;
          mask = v.mask;
          size = v.size;
          head_small = omega arith;
          tail_small = v.tail_small;
          fits = omega (arith, one_less, v.fits);
        };
      }

-- uring_result gives NULL exactly when nothing has arrived; otherwise it gives the place of the
-- oldest completion, and uring_advance passes that one alone and keeps the ring well formed.
pub uring_result_lem :
    (k : ℕ) (u : Uring)
    → IsCqValid k u
    → (uring_result u ≡ none) × (completions k u ≡ []) ⊎ Yields k u
uring_result_lem k u v = go (arrived u) refl
  where
    go : (n : ℕ) → arrived u ≡ n → (uring_result u ≡ none) × (completions k u ≡ []) ⊎ Yields k u
    go zero e = inl (empty_returns k u v e)
    go (suc n) e = inr (yields k u v n e)
