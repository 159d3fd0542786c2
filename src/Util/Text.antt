-- ===== src/Util/Text.antt =====
-- util/util.c: nolibc_strlen, strchr and strcpy.
pub mod Laws
use minlinux.Base.{ℕ, zero, suc, ◌+◌, ◌%◌, Option, none, some, ◌==◌, if◌then◌else◌, length}
use minlinux.Memory.{Memory, Run, ok, out_of_fuel, ◌>>=◌, load, store}

-- `fuel` bounds the rounds. A round reads a byte further on, so the bytes of the memory and one
-- more round are enough: the next read would be outside.
abbrev pub rounds : Memory → ℕ
rounds m = suc (length m)

-- `for (len = 0; str[len]; len++);`
pub strlen_loop : ℕ → Memory → ℕ → ℕ → Run ℕ
strlen_loop zero m str len = out_of_fuel
strlen_loop (suc fuel) m str len = do
  c ← load m (str + len)
  let rest = strlen_loop fuel m str (len + 1)
  if c == 0 then ok len else rest

unfoldable pub strlen : Memory → ℕ → Run ℕ
unfolding strlen_loop
strlen m str = strlen_loop (rounds m) m str 0

-- `c` is the byte that `(char)c` leaves.
pub strchr_loop : ℕ → Memory → ℕ → ℕ → Run (Option ℕ)
strchr_loop zero m s c = out_of_fuel
strchr_loop (suc fuel) m s c = do
  x ← load m s
  let rest = strchr_loop fuel m (s + 1) c
  if x == 0 then ok none else (if x == c then ok (some s) else rest)

unfoldable pub strchr : Memory → ℕ → ℕ → Run (Option ℕ)
unfolding strchr_loop
strchr m s c = strchr_loop (rounds m) m s (c % 256)

-- `while ((*dst++ = *src++));`
pub strcpy_loop : ℕ → Memory → ℕ → ℕ → Run Memory
strcpy_loop zero m dst src = out_of_fuel
strcpy_loop (suc fuel) m dst src = do
  c ← load m src
  m' ← store m dst c
  let rest = strcpy_loop fuel m' (dst + 1) (src + 1)
  if c == 0 then ok m' else rest

unfoldable pub strcpy : Memory → ℕ → ℕ → Run Memory
unfolding strcpy_loop
strcpy m dst src = strcpy_loop (rounds m) m dst src
