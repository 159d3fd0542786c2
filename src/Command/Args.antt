-- ===== src/Command/Args.antt =====
-- init/command.c: fill_args, which splits the rest of a command line into an argument vector.
pub mod Laws
pub mod Limits
use minlinux.Base.{
  ℕ, zero, suc, ◌+◌, Bool, true, false, Option, none, some, List, ◌==◌, leb, if◌then◌else◌,
}
use minlinux.Memory.{Memory, Run, ok, ◌>>=◌, store}
use minlinux.Command.Scan.{find_arg, terminate_arg}

-- `MAX_ARGS`, for the `ARG_MAX` of <linux/limits.h>.
abbrev pub max_args : ℕ → ℕ
max_args arg_max = if leb arg_max 32 then arg_max else 32

-- An array of `char *`, a cell of which may be NULL.
abbrev pub Vector : Type 0
Vector = List (Option ℕ)

-- What the loop leaves: `i`, the array and the memory of the line.
pub record Filled : Type 0 where
  pub count : ℕ
  pub args : Vector
  pub line : Memory

-- `while (next != NULL && i < maxargs) …` with `left` for `maxargs - i`; `args` in C is the array
-- here from `base` on.
unfoldable pub fill_loop : ℕ → ℕ → ℕ → Vector → Option ℕ → Memory → Run Filled
fill_loop left i base args none m = ok (record { count = i; args = args; line = m })
fill_loop zero i base args (some next) m = ok (record { count = i; args = args; line = m })
fill_loop (suc left) i base args (some next) m = do
  (m', temp) ← terminate_arg m next
  args' ← store args (base + i) (some next)
  next' ← find_arg m' temp
  fill_loop left (i + 1) base args' next' m'

-- How the function ends: with the message "Truncated to … args", or with a NULL behind the last
-- argument.
unfoldable pub fill_args : ℕ → ℕ → ℕ → Vector → Option ℕ → Memory → Run (Bool × Filled)
unfolding fill_loop
fill_args arg_max maxargs base args next m = do
  f ← fill_loop maxargs 0 base args next m
  let ended : Run (Bool × Filled) =
      store f.args (base + f.count) none >>= λ args'. ok (false, record f { args = args' })
  if f.count == max_args arg_max then ok (true, f) else ended
