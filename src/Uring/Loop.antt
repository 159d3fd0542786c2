-- ===== src/Uring/Loop.antt =====
-- util/uring_ctl.c: the places of counters in the ring, and the loop of uring_wait over them.
use native.Mathlib.Nat.{one-le-pow, mod-lt, pow-le-pow_right}
use native.Mathlib.Decide.{dec_lt}
use minlinux.Base.{
  ℕ, zero, suc, ◌+◌, ◌-◌, ◌^◌, ◌≤◌, ◌<◌, ◌≡◌, ◌≢◌, ◌∙◌, List, arith, length, get_elem?, set, u32,
  get_elem?-set_self, get_elem?-set_ne, get_elem?_inside, length-set,
}
use minlinux.Base.Bits.{bit_and_mask}
use minlinux.Memory.{Run, ok}
use minlinux.Uring.{Uring, flush_loop}
use minlinux.Uring.Window.{window, window_ext, slot_ne, slot_wrap}
use minlinux.Uring.Valid.{slot, Aligned, entry_of}

module _ (k : ℕ) (order : k < 32) where
  pub slot-lt : (c : ℕ) → slot k c < 2 ^ k
  slot-lt c = mod-lt c (one-le-pow k 2 (omega arith))

  -- Counters less than a ring apart have different places, wrapped or not.
  pub slots_apart :
      (h i j : ℕ) → i < j → j < i + 2 ^ k → slot k (u32 (h + j)) ≢ slot k (u32 (h + i))
  slots_apart h i j less near =
      let wj = slot_wrap k (h + j) (omega arith) in
      let wi = slot_wrap k (h + i) (omega arith) in
      let e : h + j ≡ h + i + (j - i) = omega arith in
      rw (wj, wi, e) (slot_ne (2 ^ k) (h + i) (j - i) (omega arith) (omega arith))

  -- Naming one more counter's place keeps the array aligned.
  pub Aligned-set :
      (array : List ℕ) (h n : ℕ)
      → length array ≡ 2 ^ k
      → n < 2 ^ k
      → Aligned k array h n
      → let c = u32 (h + n) in Aligned k (set array (slot k c) (slot k c)) h (n + 1)
  Aligned-set array h n size room before j less = elim (dec_lt j n) [
    | yes older ↦
        get_elem?-set_ne array (slot k (u32 (h + n))) (slot k (u32 (h + j))) (slot k (u32 (h + n)))
          (slots_apart h j n older (omega arith))
        ∙ before j older
    | no newest ↦
        let e : j ≡ n = omega arith in
        rw e (
          get_elem?-set_self array (slot k (u32 (h + n))) (slot k (u32 (h + n)))
            (omega (arith, slot-lt (u32 (h + n)))))
  ]

  -- What the rounds of the flush leave, started `v` counters behind the kernel's head `h`.
  pub record Flushed (h v n : ℕ) (u : Uring) (run : Run (ℕ × Uring)) : Type 0 where
    pub array : List ℕ
    pub returns :
        run
        ≡ ok (u32 (h + (v + n)), record u { sq_array = array; sq_list_head = u32 (h + (v + n)) })
    pub size : length array ≡ 2 ^ k
    pub aligned : Aligned k array h (v + n)

  flush_loop-suc :
      (n : ℕ) (u : Uring)
      → length u.sq_array ≡ 2 ^ k
      → let t = u.sq_list_head in
        flush_loop (suc n) (2 ^ k - 1) t u
        ≡ flush_loop n (2 ^ k - 1) (u32 (t + 1)) (record u {
          sq_array = set u.sq_array (slot k t) (slot k t);
          sq_list_head = u32 (t + 1);
        })
  unfolding flush_loop
  flush_loop-suc n u size =
      let t = u.sq_list_head in
      let (_, there) = get_elem?_inside u.sq_array (slot k t) (omega (arith, slot-lt t)) in
      rw (bit_and_mask, there)

  pub flush_loop-Flushed :
      (n h v : ℕ) (u : Uring)
      → u.sq_list_head ≡ u32 (h + v)
      → length u.sq_array ≡ 2 ^ k
      → v + n ≤ 2 ^ k
      → Aligned k u.sq_array h v
      → Flushed h v n u (flush_loop n (2 ^ k - 1) u.sq_list_head u)
  flush_loop-Flushed zero h v u at size fits aligned =
      let e : u32 (h + (v + 0)) ≡ u.sq_list_head = omega arith in
      let e' : v + 0 ≡ v = omega arith in
      record {
        array = u.sq_array;
        returns = unfold flush_loop in rw e;
        size = size;
        aligned = rw e' aligned;
      }
  flush_loop-Flushed (suc n) h v u at size fits aligned =
      let t = u.sq_list_head in
      let array = set u.sq_array (slot k t) (slot k t) in
      let rest =
        flush_loop-Flushed n h (v + 1) (record u { sq_array = array; sq_list_head = u32 (t + 1) })
          (omega arith) (length-set u.sq_array (slot k t) (slot k t) ∙ size) (omega arith)
          (rw at (Aligned-set u.sq_array h v size (omega arith) aligned)) in
      let e : v + suc n ≡ v + 1 + n = omega arith in
      record {
        array = rest.array;
        returns = rw e (flush_loop-suc n u size ∙ rest.returns);
        size = rest.size;
        aligned = rw e rest.aligned;
      }

pub order-bound : (k : ℕ) → k < 32 → 2 ^ k ≤ 2 ^ 31
order-bound k order = pow-le-pow_right (omega arith) {j = 31} (omega arith)

-- Where the array is aligned the kernel reads the entries at the counters' own places.
pub visible_of_Aligned :
    (k : ℕ) (u : Uring) (n : ℕ)
    → u.sq_head < 2 ^ 32
    → Aligned k u.sq_array u.sq_head n
    → window (λ c. entry_of u.sqes (get_elem? u.sq_array (slot k c))) u.sq_head n
      ≡ window (λ c. get_elem? u.sqes (slot k c)) u.sq_head n
visible_of_Aligned k u n small aligned =
    window_ext _ _ u.sq_head n small (λ j less. rw (aligned j less))
