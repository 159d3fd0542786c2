-- ===== src/Uring/Window.antt =====
-- Reading a run of entries of a ring by counters that wrap at 2^32.
use Prim.Native.Nat.{◌∣◌}
use mathlib.Core.Path.{subst}
use native.Mathlib.Nat.{
  pow-suc, mod-mod_of_dvd, mod-add-mod, mod-lt, mod-eq_of_lt, mod-eq-sub-mod, dvd-mul_right,
}
use native.Mathlib.Decide.{dec_lt}
use minlinux.Base.{
  ℕ, zero, suc, ◌+◌, ◌-◌, ◌*◌, ◌%◌, ◌^◌, ◌≤◌, ◌<◌, ◌≡◌, ◌≢◌, refl, ap, ap₂, ◌∙◌, List, [], ◌∷◌,
  ◌++◌, arith, length, u32,
}

module _ {ℓ} {A : Type ℓ} where
  -- What `f` shows at the `n` counters from `h` on.
  abbrev pub window : (ℕ → A) → ℕ → ℕ → List A
  window f h zero = []
  window f h (suc n) = f h ∷ window f (u32 (h + 1)) n

  pub length-window : (f : ℕ → A) (h n : ℕ) → length (window f h n) ≡ n
  length-window f h zero = refl
  length-window f h (suc n) = ap suc (length-window f (u32 (h + 1)) n)

  pub window_ext :
      (f g : ℕ → A) (h n : ℕ)
      → h < 2 ^ 32
      → ((j : ℕ) → j < n → f (u32 (h + j)) ≡ g (u32 (h + j)))
      → window f h n ≡ window g h n
  window_ext f g h zero small same = refl
  window_ext f g h (suc n) small same =
      let e : u32 (h + 0) ≡ h = omega arith in
      ap₂ ◌∷◌ (rw e at (same 0 (omega arith))) (
        window_ext f g (u32 (h + 1)) n (omega arith) (λ j less.
          let e' : u32 (h + suc j) ≡ u32 (u32 (h + 1) + j) = omega arith in
          rw e' at (same (suc j) (omega arith))))

  pub window-add :
      (f : ℕ → A) (h n k : ℕ)
      → h < 2 ^ 32
      → window f h (n + k) ≡ window f h n ++ window f (u32 (h + n)) k
  window-add f h zero k small =
      let e : u32 (h + 0) ≡ h = omega arith in let e' : zero + k ≡ k = omega arith in rw (e, e')
  window-add f h (suc n) k small =
      let e : u32 (h + suc n) ≡ u32 (u32 (h + 1) + n) = omega arith in
      let e' : suc n + k ≡ suc (n + k) = omega arith in
      rw (e, e') (ap (λ r. f h ∷ r) (window-add f (u32 (h + 1)) n k (omega arith)))

-- The places that two counters less than a ring apart name are different.
pub slot_ne : (p h d : ℕ) → 0 < d → d < p → (h + d) % p ≢ h % p
slot_ne p h d some_way less = λ e.
    let r = h % p in
    let small : r < p = mod-lt h (omega arith) in
    let carry : (r + d) % p ≡ r = mod-add-mod h p d ∙ e in
    elim (dec_lt (r + d) p) [
      | yes q ↦ omega (arith, mod-eq_of_lt q)
      | no q ↦ omega (
        arith,
        mod-eq-sub-mod {n = r + d} {m = p} (omega arith),
        mod-eq_of_lt {n = r + d - p} {m = p} (omega arith),
      )
    ]

pub pow_add : (j k : ℕ) → 2 ^ j * 2 ^ k ≡ 2 ^ (j + k)
pow_add j zero = let e : j + 0 ≡ j = omega arith in rw e (omega arith)
pow_add j (suc k) =
    let e : j + suc k ≡ suc (j + k) = omega arith in
    rw e (
      omega (
        arith,
        pow-suc 2 k,
        pow-suc 2 (j + k),
        pow_add j k,
        ap (λ (n : ℕ). 2 ^ j * n) (pow-suc 2 k),
      ))

-- A ring whose size is a power of 2 is not disturbed by the wrap of its counters.
pub slot_wrap : (k n : ℕ) → k ≤ 32 → u32 n % 2 ^ k ≡ n % 2 ^ k
slot_wrap k n h =
    let e : k + (32 - k) ≡ 32 = omega arith in
    let whole : 2 ^ k * 2 ^ (32 - k) ≡ 2 ^ 32 = pow_add k (32 - k) ∙ ap (λ (i : ℕ). 2 ^ i) e in
    mod-mod_of_dvd (2 ^ k) n (subst (λ w. 2 ^ k ∣ w) whole (dvd-mul_right (2 ^ k) (2 ^ (32 - k))))
