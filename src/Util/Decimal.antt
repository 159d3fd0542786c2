-- ===== src/Util/Decimal.antt =====
-- util/util.c: int_to_str and ltoa.
pub mod Numeral
pub mod Laws
use minlinux.Base.{ℕ, zero, suc, ◌+◌, ◌/◌, ◌%◌, ◌^◌, ◌==◌, Bool, true, false, if◌then◌else◌}
use minlinux.Base.Int.{ℤ, pos, negsuc, is_neg}
use minlinux.Memory.{Memory, Run, ok, fault, ◌>>=◌, store}

-- The write position is kept as `pos + 1`, so that `pos < buffer` is 0.
pub record Cursor : Type 0 where
  pub bytes : Memory
  pub next : ℕ

-- `*pos-- = c`
pub put_back : Memory → ℕ → ℕ → Run Cursor
put_back m zero c = fault
put_back m (suc at) c = do m' ← store m at c; ok (record { bytes = m'; next = at })

-- How the digit loop is left: by its condition, or by the return in its middle.
pub data Digits : Type 0 where
  all_out : Cursor → Digits
  no_room : Cursor → Digits

-- `do { *pos-- = '0' + n % 10; n /= 10; if (pos < buffer) return …; } while (n);`
-- Each round moves `pos` down by one, and one below the buffer it returns.
pub digit_loop : Memory → ℕ → ℕ → Run Digits
digit_loop m zero n = fault
digit_loop m (suc at) n = do
  m' ← store m at (b'0' + n % 10)
  let here : Cursor = record { bytes = m'; next = at }
  let rest = digit_loop m' at (n / 10)
  if at == 0 then ok (no_room here) else (if n / 10 == 0 then ok (all_out here) else rest)

-- `unsigned long n = neg ? -in : in`, with the wrap of -in at the least value, where C has no
-- defined result.
abbrev pub magnitude : ℤ → ℕ
magnitude (pos n) = n
magnitude (negsuc n) = (n + 1) % 2 ^ 64

-- The end of both functions: a '-' for a negative number.
pub put_sign : Bool → Digits → Run Cursor
unfolding put_back
put_sign neg (no_room c) = ok c
put_sign true (all_out c) = put_back c.bytes c.next b'-'
put_sign false (all_out c) = ok c

-- The 21 bytes that the function fills and the index at which the string begins in them.
unfoldable pub ltoa : ℤ → Memory → Run Cursor
unfolding digit_loop put_sign
ltoa in' buffer = do
  c ← put_back buffer 21 0
  d ← digit_loop c.bytes c.next (magnitude in')
  put_sign (is_neg in') d

-- The same steps over the array `val` of the result, whose old content is `val`.
unfoldable pub int_to_str : ℤ → Memory → Run Cursor
unfolding digit_loop put_sign
int_to_str in' val = do
  c ← put_back val 21 0
  d ← digit_loop c.bytes c.next (magnitude in')
  put_sign (is_neg in') d
