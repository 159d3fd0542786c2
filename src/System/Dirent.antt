-- ===== src/System/Dirent.antt =====
-- include/minlinux/syscall.h: `dirtype` and the layout of `struct linux_dirent64`.
use minlinux.Base.{ℕ, ◌+◌}

abbrev pub dt_unknown : ℕ
dt_unknown = 0

abbrev pub dt_fifo : ℕ
dt_fifo = 1

abbrev pub dt_chr : ℕ
dt_chr = 2

abbrev pub dt_dir : ℕ
dt_dir = 4

abbrev pub dt_blk : ℕ
dt_blk = 6

abbrev pub dt_reg : ℕ
dt_reg = 8

abbrev pub dt_lnk : ℕ
dt_lnk = 10

abbrev pub dt_sock : ℕ
dt_sock = 12

-- The fields begin where the sizes of those in front end: `d_ino` and `d_off` take eight bytes each,
-- `d_reclen` two and `d_type` one.
abbrev pub d_off : ℕ
d_off = 8

abbrev pub d_reclen : ℕ
d_reclen = d_off + 8

abbrev pub d_type : ℕ
d_type = d_reclen + 2

abbrev pub d_name : ℕ
d_name = d_type + 1
