-- ===== src/Base/Bits.antt =====
-- `&` with a mask of low ones is the remainder by a power of 2, at every width; `|` of numbers
-- without a common digit is their sum.
use Prim.Native.Nat.{
  ℕ, zero, suc, ◌+◌, ◌-◌, ◌*◌, ◌/◌, ◌%◌, ◌^◌, ◌≤◌, ◌<◌, min, max, bit_and, bit_or, digits,
  bit_and-bitwise, bit_or-bitwise,
}
use mathlib.Core.Path.{◌≡◌, refl, sym, ap, ◌∙◌}
use native.Mathlib.Nat.{
  div-one, zero-div, zero-mod, zero-mul, mul_comm, mul_assoc, div-div-eq-div-mul, pow-suc,
  one-le-pow, div-add-mod, mod-lt, mul-add-mod_self_right, mod-eq_of_lt,
}
use native.Mathlib.Omega.{arith}

-- The digit recursion behind `bit_and`, with its fuel.
abbrev and_from : ℕ → ℕ → ℕ → ℕ
and_from fuel a b = digits (λ _. 0) min fuel a b

-- Any fuel from `a` on gives the same digits.
and_from_enough : (f g a b : ℕ) → a ≤ f → a ≤ g → and_from f a b ≡ and_from g a b
and_from_enough zero zero a b p q = refl
and_from_enough zero (suc g) zero b p q = refl
and_from_enough zero (suc g) (suc a) b p q = absurd (omega arith)
and_from_enough (suc f) zero zero b p q = refl
and_from_enough (suc f) zero (suc a) b p q = absurd (omega arith)
and_from_enough (suc f) (suc g) zero b p q = refl
and_from_enough (suc f) (suc g) (suc a) b p q =
    let rest = and_from_enough f g (suc a / 2) (b / 2) (omega arith) (omega arith) in
    omega (arith, rest)

and_from-zero : (f a : ℕ) → a ≤ f → and_from f a 0 ≡ 0
and_from-zero zero zero h = refl
and_from-zero zero (suc a) h = absurd (omega arith)
and_from-zero (suc f) zero h = refl
and_from-zero (suc f) (suc a) h = omega (arith, and_from-zero f (suc a / 2) (omega arith))

mod_twice : (a p : ℕ) → 0 < p → a % (2 * p) ≡ a / 2 % p * 2 + a % 2
mod_twice a p h =
    let q = a / 2 / p in
    let low = a / 2 % p * 2 + a % 2 in
    let split : a ≡ q * (2 * p) + low = omega (arith, div-add-mod (a / 2) p) in
    let small : low < 2 * p = omega (arith, mod-lt (a / 2) h) in
    ap (λ n. n % (2 * p)) split ∙ mul-add-mod_self_right q (2 * p) low ∙ mod-eq_of_lt small

-- The mask takes the lowest digit, and a shorter mask the others.
and_from-mask : (k f a : ℕ) → a ≤ f → and_from f a (2 ^ k - 1) ≡ a % 2 ^ k
and_from-mask zero f a h = and_from-zero f a h ∙ omega arith
and_from-mask (suc k) zero zero h = omega arith
and_from-mask (suc k) (suc f) zero h = omega arith
and_from-mask (suc k) zero (suc a) h = absurd (omega arith)
and_from-mask (suc k) (suc f) (suc a) h =
    let p = 2 ^ k in
    let pos : 0 < p = one-le-pow k 2 (omega arith) in
    let twice : 2 ^ suc k ≡ 2 * p = omega (arith, pow-suc 2 k) in
    let shorter : (2 * p - 1) / 2 ≡ p - 1 = omega arith in
    let ih = and_from-mask k f (suc a / 2) (omega arith) in
    rw (twice, shorter) (omega (arith, ih, mod_twice (suc a) p pos))

pub bit_and_mask : (k a : ℕ) → bit_and a (2 ^ k - 1) ≡ a % 2 ^ k
bit_and_mask k a = bit_and-bitwise a (2 ^ k - 1) ∙ and_from-mask k a a (omega arith)

-- A number below 2 ^ k and a multiple of 2 ^ k.
or_from-sum : (k f a b : ℕ) → a ≤ f → a < 2 ^ k → b % 2 ^ k ≡ 0 → digits (λ n. n) max f a b ≡ a + b
or_from-sum k zero zero b enough low high = omega arith
or_from-sum k zero (suc a) b enough low high = absurd (omega arith)
or_from-sum k (suc f) zero b enough low high = omega arith
or_from-sum zero (suc f) (suc a) b enough low high = absurd (omega arith)
or_from-sum (suc k) (suc f) (suc a) b enough low high =
    let p = 2 ^ k in
    let pos : 0 < p = one-le-pow k 2 (omega arith) in
    let twice : 2 ^ suc k ≡ 2 * p = omega (arith, pow-suc 2 k) in
    let split : b / 2 % p * 2 + b % 2 ≡ 0 =
      sym (mod_twice b p pos) ∙ ap (λ n. b % n) (sym twice) ∙ high in
    let ih =
      or_from-sum k f (suc a / 2) (b / 2) (omega arith) (omega (arith, twice))
        (omega (arith, split)) in
    omega (arith, ih, split)

pub bit_or_apart : (k a b : ℕ) → a < 2 ^ k → b % 2 ^ k ≡ 0 → bit_or a b ≡ a + b
bit_or_apart k a b low high = bit_or-bitwise a b ∙ or_from-sum k a a b (omega arith) low high

-- A mask without a lowest one passes that digit over.
and_from-even : (f a b : ℕ) → and_from (suc f) a (b * 2) ≡ and_from f (a / 2) b * 2
and_from-even zero zero b = refl
and_from-even (suc f) zero b = refl
and_from-even f (suc a) b =
    let half : b * 2 / 2 ≡ b = omega arith in
    let low : b * 2 % 2 ≡ 0 = omega arith in rw (half, low) (omega arith)

and_from-high :
    (k m f a : ℕ) → a ≤ f → and_from f a ((2 ^ m - 1) * 2 ^ k) ≡ a / 2 ^ k % 2 ^ m * 2 ^ k
and_from-high zero m f a h =
    ap (λ n. and_from f a n) (omega arith)
    ∙ and_from-mask m f a h
    ∙ ap (λ n. n % 2 ^ m) (sym (div-one a))
    ∙ omega arith
and_from-high (suc k) m zero zero h =
    let p = 2 ^ suc k in
    sym (ap (λ n. n % 2 ^ m * p) (zero-div p) ∙ ap (λ n. n * p) (zero-mod (2 ^ m)) ∙ zero-mul p)
and_from-high (suc k) m zero (suc a) h = absurd (omega arith)
and_from-high (suc k) m (suc f) a h =
    let p = 2 ^ k in
    let mask = (2 ^ m - 1) * p in
    let twice : 2 ^ suc k ≡ 2 * p = omega (arith, pow-suc 2 k) in
    let whole : (2 ^ m - 1) * 2 ^ suc k ≡ mask * 2 =
      ap (λ n. (2 ^ m - 1) * n) (twice ∙ mul_comm 2 p) ∙ sym (mul_assoc (2 ^ m - 1) p 2) in
    let ih = and_from-high k m f (a / 2) (omega arith) in
    ap (λ n. and_from (suc f) a n) whole
    ∙ and_from-even f a mask
    ∙ rw (ih, twice, div-div-eq-div-mul a 2 p)
        (mul_assoc (a / (2 * p) % 2 ^ m) p 2 ∙ ap (λ n. a / (2 * p) % 2 ^ m * n) (mul_comm p 2))

-- `&` with a mask of m ones above k zeros takes the digits in between.
pub bit_and_high : (k m a : ℕ) → bit_and a ((2 ^ m - 1) * 2 ^ k) ≡ a / 2 ^ k % 2 ^ m * 2 ^ k
bit_and_high k m a = bit_and-bitwise a ((2 ^ m - 1) * 2 ^ k) ∙ and_from-high k m a a (omega arith)
