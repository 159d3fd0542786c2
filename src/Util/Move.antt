-- ===== src/Util/Move.antt =====
-- util/util.c: memmove, memcpy and memset.
pub mod Laws
pub mod Fill
use minlinux.Base.{ℕ, zero, suc, ◌+◌, ◌-◌, ◌^◌, ◌%◌, Bool, true, false, add64, leb, if◌then◌else◌}
use minlinux.Memory.{Memory, Run, ok, ◌>>=◌, load, store}

-- One step of `pos`; -1 is all ones.
abbrev pub step_pos : Bool → ℕ → ℕ
step_pos forward pos = add64 pos (if forward then 1 else 2 ^ 64 - 1)

-- `while (len--)`; `pos` is a 64-bit pattern, so an index wraps as the machine's does.
pub memmove_loop : ℕ → Bool → ℕ → ℕ → ℕ → Memory → Run Memory
memmove_loop zero forward dst src pos m = ok m
memmove_loop (suc len) forward dst src pos m = do
  let pos' = step_pos forward pos
  c ← load m (add64 src pos')
  m' ← store m (add64 dst pos') c
  memmove_loop len forward dst src pos' m'

unfoldable pub memmove : ℕ → ℕ → ℕ → Memory → Run Memory
unfolding memmove_loop
memmove dst src len m =
    let forward = leb dst src in
    memmove_loop len forward dst src (if forward then 2 ^ 64 - 1 else len) m

pub memcpy : ℕ → ℕ → ℕ → Memory → Run Memory
unfolding memmove
memcpy dst src len m = memmove dst src len m

-- `b` is an int whose low byte is stored, here given as a 32-bit pattern.
pub memset_loop : ℕ → ℕ → ℕ → Memory → Run Memory
memset_loop zero b p m = ok m
memset_loop (suc len) b p m = do m' ← store m p (b % 256); memset_loop len b (p + 1) m'

unfoldable pub memset : ℕ → ℕ → ℕ → Memory → Run Memory
unfolding memset_loop
memset dst b len m = memset_loop len b dst m
