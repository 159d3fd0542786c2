-- ===== src/Command/Scan.antt =====
-- init/command.c: find_arg, terminate_arg and streq, the scanners of a command line.
pub mod Edge
pub mod Laws
use minlinux.Base.{
  ℕ, zero, suc, ◌+◌, Bool, true, false, Option, none, some, ◌||◌, ◌==◌, if◌then◌else◌, length,
}
use minlinux.Memory.{Memory, Run, ok, out_of_fuel, ◌>>=◌, load, store}

-- ' ' or '\t'
abbrev pub is_blank : ℕ → Bool
is_blank c = c == b' ' || c == 9

-- As in util.c, a round per byte of the memory and one more are enough.
abbrev pub rounds : Memory → ℕ
rounds m = suc (length m)

pub find_arg_loop : ℕ → Memory → ℕ → Run (Option ℕ)
find_arg_loop zero m str = out_of_fuel
find_arg_loop (suc fuel) m str = do
  c ← load m str
  let rest = find_arg_loop fuel m (str + 1)
  if is_blank c then rest else ok (if c == 0 then none else some str)

unfoldable pub find_arg : Memory → ℕ → Run (Option ℕ)
unfolding find_arg_loop
find_arg m str = find_arg_loop (rounds m) m str

-- `while ((*str != ' ') && (*str != '\t') && (*str != '\0')) str++;`
pub arg_end_loop : ℕ → Memory → ℕ → Run ℕ
arg_end_loop zero m str = out_of_fuel
arg_end_loop (suc fuel) m str = do
  c ← load m str
  let rest = arg_end_loop fuel m (str + 1)
  if is_blank c || c == 0 then ok str else rest

-- The memory with the argument's end marked, and the rest of the line.
unfoldable pub terminate_arg : Memory → ℕ → Run (Memory × ℕ)
unfolding arg_end_loop
terminate_arg m str = do
  at ← arg_end_loop (rounds m) m str
  c ← load m at
  let cut : Run (Memory × ℕ) = store m at 0 >>= λ m'. ok (m', at + 1)
  if c == 0 then ok (m, at) else cut

-- The two strings may stand in different objects.
pub streq_loop : ℕ → Memory → ℕ → Memory → ℕ → Run Bool
streq_loop zero m1 str1 m2 str2 = out_of_fuel
streq_loop (suc fuel) m1 str1 m2 str2 = do
  a ← load m1 str1
  b ← load m2 str2
  let rest = streq_loop fuel m1 (str1 + 1) m2 (str2 + 1)
  if a == b then (if a == 0 then ok true else rest) else ok false

unfoldable pub streq : Memory → ℕ → Memory → ℕ → Run Bool
unfolding streq_loop
streq m1 str1 m2 str2 = streq_loop (rounds m1) m1 str1 m2 str2
