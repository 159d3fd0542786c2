-- ===== src/Util/Compare.antt =====
-- util/util.c: memcmp.
pub mod Laws
use minlinux.Base.{ℕ, zero, suc, ◌+◌, ◌-◌, ◌%◌, ◌==◌, if◌then◌else◌}
use minlinux.Base.Int.{ℤ, of_u8}
use minlinux.Memory.{Memory, Run, ok, ◌>>=◌, load}

-- The byte that `c1` gets: the difference of two `char`s, cut to 8 bits.
abbrev pub diff8 : ℕ → ℕ → ℕ
diff8 a b = (a + 256 - b) % 256

-- `left` is `n - ofs`, the rounds left; `c1` holds the last difference, 0 while the loop runs.
pub memcmp_loop : ℕ → ℕ → ℕ → ℕ → Memory → Run ℕ
memcmp_loop zero s1 s2 ofs m = ok 0
memcmp_loop (suc left) s1 s2 ofs m = do
  a ← load m (s1 + ofs)
  b ← load m (s2 + ofs)
  let rest = memcmp_loop left s1 s2 (ofs + 1) m
  if diff8 a b == 0 then rest else ok (diff8 a b)

-- The `char` is returned as an `int`.
unfoldable pub memcmp : ℕ → ℕ → ℕ → Memory → Run ℤ
unfolding memcmp_loop
memcmp s1 s2 n m = do c1 ← memcmp_loop n s1 s2 0 m; ok (of_u8 c1)
