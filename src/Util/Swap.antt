-- ===== src/Util/Swap.antt =====
-- include/minlinux/util.h: __bswap_16, the two bytes of a 16-bit number in the other order.
use minlinux.Base.{
  ℕ, ◌+◌, ◌-◌, ◌*◌, ◌/◌, ◌%◌, ◌^◌, ◌<◌, ◌≡◌, bit_and, bit_or, sym, ap, ◌∙◌, Bool, true, false,
  arith,
}
use minlinux.Base.Bits.{bit_and_mask, bit_or_apart}

-- `__bswap_constant_16(x)`
unfoldable pub bswap_constant_16 : ℕ → ℕ
bswap_constant_16 x = bit_or (bit_and (x / 2 ^ 8) 0xff) (bit_and x 0xff * 2 ^ 8)

-- `rorw $n, %w0`: the low n bits go round to the top.
unfoldable pub rorw : ℕ → ℕ → ℕ
rorw n x = (x / 2 ^ n + x * 2 ^ (16 - n)) % 2 ^ 16

-- The compiler computes the bytes of a constant; otherwise the processor turns them. The argument
-- and the result are cut to 16 bits.
unfoldable pub bswap_16 : (is_constant : Bool) → ℕ → ℕ
bswap_16 true x = bswap_constant_16 (x % 2 ^ 16) % 2 ^ 16
bswap_16 false x = rorw 8 (x % 2 ^ 16)

-- __bswap_16 gives the two bytes of a 16-bit number in the other order, whether the compiler
-- computes it or the processor does.
pub bswap_16_lem :
    (is_constant : Bool) (high low : ℕ)
    → high < 2 ^ 8
    → low < 2 ^ 8
    → bswap_16 is_constant (high * 2 ^ 8 + low) ≡ low * 2 ^ 8 + high
unfolding bswap_16 bswap_constant_16 rorw
bswap_16_lem false high low h l = omega arith
bswap_16_lem true high low h l =
    let x = (high * 2 ^ 8 + low) % 2 ^ 16 in
    let upper : bit_and (x / 2 ^ 8) 0xff ≡ high = bit_and_mask 8 (x / 2 ^ 8) ∙ omega arith in
    let lower : bit_and x 0xff ≡ low = bit_and_mask 8 x ∙ omega arith in
    let both : bit_or high (low * 2 ^ 8) ≡ high + low * 2 ^ 8 =
      bit_or_apart 8 high (low * 2 ^ 8) (omega arith) (omega arith) in
    ap (λ n. n % 2 ^ 16)
      (ap (λ n. bit_or n (bit_and x 0xff * 2 ^ 8)) upper
        ∙ ap (λ n. bit_or high (n * 2 ^ 8)) lower
        ∙ both)
    ∙ omega arith

-- __bswap_16 of __bswap_16 of a 16-bit number is that number, also where the compiler computes one
-- of them and the processor the other.
pub bswap_16-bswap_16 :
    (inner outer : Bool) (x : ℕ) → x < 2 ^ 16 → bswap_16 outer (bswap_16 inner x) ≡ x
bswap_16-bswap_16 inner outer x small =
    let high = x / 2 ^ 8 in
    let low = x % 2 ^ 8 in
    let parts : x ≡ high * 2 ^ 8 + low = omega arith in
    ap (λ n. bswap_16 outer (bswap_16 inner n)) parts
    ∙ ap (λ n. bswap_16 outer n) (bswap_16_lem inner high low (omega arith) (omega arith))
    ∙ bswap_16_lem outer low high (omega arith) (omega arith)
    ∙ sym parts
