-- ===== src/Util/Tests.antt =====
-- util/util.c on concrete memories: tests, and the theorems at inputs that meet their hypotheses.
use minlinux.Base.{
  ℕ, ◌+◌, ◌*◌, true, false, ◌^◌, ◌≡◌, ◌≢◌, ◌↔◌, refl, ◌-◌, some, none, List, [], ◌∷◌, ◌++◌, arith,
  codes, length, leb, ltb, if◌then◌else◌,
}
use minlinux.Base.Int.{ℤ, pos, negsuc, is_neg}
use minlinux.Memory.{Memory, ok, fault, out_of_fuel}
use minlinux.Memory.Text.{HasText}
use minlinux.Util.Move.{memmove, memset}
use minlinux.Util.Move.Laws.{Copies, memmove-Copies}
use minlinux.Util.Move.Fill.{Fills, memset-Fills}
use minlinux.Util.Compare.{memcmp}
use minlinux.Util.Compare.Laws.{memcmp-zero_iff, memcmp_sign}
use minlinux.Util.Text.{strlen, strchr, strcpy}
use minlinux.Util.Text.Laws.{strlen_lem}
use minlinux.Util.Swap.{bswap_16, bswap_16_lem, bswap_16-bswap_16}
use minlinux.Util.Decimal.{ltoa, int_to_str}
use minlinux.Util.Decimal.Laws.{PrintsDecimal, prints_decimal}

abbrev bytes : Memory
bytes = 1 ∷ 2 ∷ 3 ∷ 4 ∷ 5 ∷ []

move_up : memmove 1 0 3 bytes ≡ ok (1 ∷ 1 ∷ 2 ∷ 3 ∷ 5 ∷ [])
unfolding memmove
move_up = refl

move_down : memmove 0 1 3 bytes ≡ ok (2 ∷ 3 ∷ 4 ∷ 4 ∷ 5 ∷ [])
unfolding memmove
move_down = refl

memmove-Copies_example : Copies bytes 1 0 0 3 (memmove 1 0 3 bytes)
memmove-Copies_example = memmove-Copies 1 0 3 bytes (omega arith) (omega arith) (omega arith)

memset-Fills_example : Fills bytes 255 1 2 (memset 1 0x2ff 2 bytes)
memset-Fills_example = memset-Fills 1 0x2ff 2 bytes (omega arith)

-- "ab" and "ac", then two bytes that are 200 apart.
abbrev pairs : Memory
pairs = codes "ab" ++ (codes "ac" ++ (210 ∷ 10 ∷ []))

memcmp_runs : memcmp 0 2 2 pairs ≡ ok (negsuc 0)
unfolding memcmp
memcmp_runs = refl

memcmp-zero_iff_example : (memcmp 0 2 1 pairs ≡ ok (pos 0)) ↔ (codes "a" ≡ codes "a")
memcmp-zero_iff_example =
    memcmp-zero_iff pairs 0 2 (codes "a") (codes "a") (refl, omega arith, tt)
      (refl, omega arith, tt) refl

memcmp_sign_example :
    (r : ℤ) × (memcmp 4 5 1 pairs ≡ ok r)
    × (is_neg r ≡ (if ltb 210 10 then leb 0 128 else leb 128 200))
memcmp_sign_example =
    memcmp_sign pairs 4 5 [] 210 10 [] [] (refl, omega arith, tt) (refl, omega arith, tt) refl
      (omega arith)

abbrev greeting : Memory
greeting = codes "hello" ++ (0 ∷ 7 ∷ 7 ∷ 7 ∷ 7 ∷ 7 ∷ 7 ∷ [])

greeting_text : HasText greeting 0 (codes "hello")
greeting_text = ground arith

runs_off : strlen (codes "hello") 0 ≡ fault
unfolding strlen
runs_off = refl

strlen_lem_example :
    ((n : ℕ) → (strlen greeting 1 ≡ ok n) ↔ ((s : List ℕ) × HasText greeting 1 s × (n ≡ length s)))
    × (strlen greeting 1 ≢ out_of_fuel)
strlen_lem_example = strlen_lem greeting 1

strchr_runs : (strchr greeting 0 b'l' ≡ ok (some 2)) × (strchr greeting 0 0 ≡ ok none)
unfolding strchr
strchr_runs = (refl, refl)

strcpy_runs : strcpy greeting 6 0 ≡ ok (codes "hello" ++ (0 ∷ (codes "hello" ++ (0 ∷ []))))
unfolding strcpy
strcpy_runs = refl

abbrev blank : Memory
blank = codes "012345678901234567890"

prints_decimal_example :
    PrintsDecimal (negsuc (2 ^ 63 - 1)) (ltoa (negsuc (2 ^ 63 - 1)) blank)
    × PrintsDecimal (negsuc (2 ^ 63 - 1)) (int_to_str (negsuc (2 ^ 63 - 1)) blank)
prints_decimal_example = prints_decimal (negsuc (2 ^ 63 - 1)) blank (omega arith) refl

least_long :
    ltoa (negsuc (2 ^ 63 - 1)) blank
    ≡ ok (record { bytes = codes "-9223372036854775808" ++ (0 ∷ []); next = 0 })
unfolding ltoa
least_long = refl

bswap_16_lem_example : bswap_16 false (0 * 2 ^ 8 + 3) ≡ 3 * 2 ^ 8 + 0
bswap_16_lem_example = bswap_16_lem false 0 3 (omega arith) (omega arith)

bswap_16-bswap_16_example : bswap_16 true (bswap_16 false 0x0806) ≡ 0x0806
bswap_16-bswap_16_example = bswap_16-bswap_16 false true 0x0806 (omega arith)
