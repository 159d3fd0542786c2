-- ===== src/Command/Listing.antt =====
-- init/command.c: ls, over the directory entries that the kernel writes.
pub mod Laws
pub mod Frame
pub mod Orderly
mod Tests
use minlinux.Base.{
  ℕ, zero, suc, ◌+◌, ◌*◌, true, false, Option, none, some, [], ◌∷◌, if◌then◌else◌, ltb, ◌==◌, take,
  drop, codes,
}
use minlinux.Base.Int.{ℤ, pos, negsuc, to_u64}
use minlinux.Memory.{Memory, load}
use minlinux.Util.Text.{strlen}
use minlinux.System.{
  Kernel, Program, Unit0, no_fuel, stop, syscall, syscall_bytes, run, ◌>>=◌, ◌>>◌, skip,
}
use minlinux.System.Abi.{Constant}
use minlinux.System.Dirent.{
  dt_fifo, dt_chr, dt_dir, dt_blk, dt_reg, dt_lnk, dt_sock, d_reclen, d_type, d_name,
}
use minlinux.System.Wrappers
use minlinux.System.Wrappers.{Text}
use minlinux.System.Print.{stdout, write_str, write_int}
use minlinux.Command.Builtins.{find_in_line, terminate_in_line, text_at}

-- What follows a name, by the entry's `d_type`: the cases of the `switch`.
abbrev pub suffix : ℕ → Text
suffix t =
    if t == dt_dir
    then codes "/\n"
    else if t == dt_reg
    then codes "\n"
    else if t == dt_fifo
    then codes " (fifo)\n"
    else if t == dt_chr
    then codes " (character)\n"
    else if t == dt_blk
    then codes " (block)\n"
    else if t == dt_lnk
    then codes " -> ???\n"
    else if t == dt_sock
    then codes " (socket)\n"
    else codes "?\n"

module _ (k : Kernel) where
  -- `for (int64_t pos = 0; pos < count;) …` over the entries in `buffer`; the record length has two
  -- bytes, the low one first.
  unfoldable pub entries_loop : ℕ → Memory → ℕ → ℕ → Program Unit0
  entries_loop zero buffer count at = stop no_fuel
  entries_loop (suc fuel) buffer count at = elim (ltb at count) [
    | false ↦ skip
    | true ↦ do
      n ← run (strlen buffer (at + d_name))
      syscall k (Wrappers.write stdout (take n (drop (at + d_name) buffer)))
      type ← run (load buffer (at + d_type))
      write_str k (suffix type)
      low ← run (load buffer (at + d_reclen))
      high ← run (load buffer (at + (d_reclen + 1)))
      entries_loop fuel buffer count (at + (low + 256 * high))
  ]

  -- `do { count = getdents64(…); … } while (count > 0);` Each batch of `count` bytes takes at most
  -- `count` rounds where no entry has length 0, and one more to see its end.
  unfoldable pub batches_loop : ℕ → ℤ → Program Unit0
  unfolding entries_loop
  batches_loop zero rootdir = stop no_fuel
  batches_loop (suc fuel) rootdir = do
    (count, buffer) ← syscall_bytes k (Wrappers.getdents64 rootdir 1024)
    elim count [
      | pos (suc n) ↦ entries_loop (suc (suc n)) buffer (suc n) 0 >> batches_loop fuel rootdir
      | other ↦ skip
    ]

  pub list_opened : ℕ → Text → ℤ → Program Unit0
  unfolding batches_loop
  list_opened fuel path (negsuc n) = do
    write_str k (codes "Error opening directory ")
    write_str k path
    write_str k (codes ": ")
    write_int k (to_u64 (negsuc n))
    write_str k (codes "\n")
  list_opened fuel path (pos fd) = batches_loop fuel (pos fd)

  pub dirlist : ℕ → Text → Program Unit0
  unfolding list_opened
  dirlist fuel path = do
    rootdir ← syscall k (
        Wrappers.open_file path (Constant.o_rdonly ∷ Constant.o_noatime ∷ Constant.o_directory ∷ [])
          0)
    list_opened fuel path rootdir

  list_path : ℕ → Option ℕ → Program Unit0
  unfolding dirlist
  list_path fuel none = dirlist fuel (codes "/")
  list_path fuel (some dir) = do terminate_in_line dir; path ← text_at dir; dirlist fuel path

  pub cmd_ls : ℕ → ℕ → Program Unit0
  unfolding list_path
  cmd_ls fuel next = do dir ← find_in_line next; list_path fuel dir
