-- ===== src/Command/Listing/Orderly.antt =====
-- init/command.c: ls does not crash on the batches of entries that the kernel writes.
use minlinux.Base.{ℕ, zero, suc, ◌≡◌, refl, [], ◌∷◌, arith, codes}
use minlinux.Base.Int.{ℤ, pos, negsuc, IsInt64, to_u64_small}
use minlinux.Memory.Text.{HasText}
use minlinux.System.{Kernel, World, record_call}
use minlinux.System.Abi.{Constant}
use minlinux.System.Wrappers
use minlinux.System.Wrappers.{Text}
use minlinux.System.Orderly.{Orderly, goes_on, ends, Anyhow, and_then-Orderly, write_int-Orderly}
use minlinux.Command.Scan.Laws.{no_word, word, find_arg-Finds, terminate_arg-Cuts}
use minlinux.Command.Words.{lead}
use minlinux.Command.Documented.{Documented}
use minlinux.Command.Spawn.Prepared.{text_at_lem}
use minlinux.Command.Listing.{batches_loop, list_opened, dirlist, cmd_ls}
use minlinux.Command.Listing.Laws.{shown, HasEntries-length, entries_loop-shown}

module _ (k : Kernel) (d : Documented k) where
  batch-Orderly :
      (fuel : ℕ) (fd : ℤ) (w : World) (count : ℤ)
      → k.rax w.calls (Wrappers.getdents64 fd 1024) ≡ count
      → ((w : World) → Orderly Anyhow (batches_loop k fuel fd w))
      → Orderly Anyhow (batches_loop k (suc fuel) fd w)
  unfolding batches_loop
  batch-Orderly fuel fd w (pos zero) e rest = rw (batches_loop, e) (goes_on tt)
  batch-Orderly fuel fd w (pos (suc n)) e rest =
      let asked = Wrappers.getdents64 fd 1024 in
      let m = k.bytes w.calls asked in
      let (es, content) = d.batches w.calls fd n e in
      let w1 = record_call asked w in
      let shows =
        entries_loop-shown k (suc (suc n)) m (suc n) 0 es w1
          (omega (arith, HasEntries-length m 0 es (suc n) content)) content in
      rw (batches_loop, e, shows) (rest (record w { calls = shown es w1.calls }))
  batch-Orderly fuel fd w (negsuc n) e rest = rw (batches_loop, e) (goes_on tt)

  batches_loop-Orderly : (fuel : ℕ) (fd : ℤ) (w : World) → Orderly Anyhow (batches_loop k fuel fd w)
  unfolding batches_loop
  batches_loop-Orderly zero fd w = ends (λ e. cc)
  batches_loop-Orderly (suc fuel) fd w =
      batch-Orderly fuel fd w (k.rax w.calls (Wrappers.getdents64 fd 1024)) refl
        (batches_loop-Orderly fuel fd)

  list_opened-Orderly :
      (fuel : ℕ) (path : Text) (fd : ℤ) (w : World)
      → IsInt64 fd
      → Orderly Anyhow (list_opened k fuel path fd w)
  unfolding list_opened
  list_opened-Orderly fuel path (pos fd) w small = batches_loop-Orderly fuel (pos fd) w
  list_opened-Orderly fuel path (negsuc n) w small =
      and_then-Orderly (write_int-Orderly k _ _ (to_u64_small (negsuc n) small) refl)
        (λ _ w' _. goes_on tt)

  dirlist-Orderly : (fuel : ℕ) (path : Text) (w : World) → Orderly Anyhow (dirlist k fuel path w)
  unfolding dirlist
  dirlist-Orderly fuel path w =
      let asked =
        Wrappers.open_file path (Constant.o_rdonly ∷ Constant.o_noatime ∷ Constant.o_directory ∷ [])
          0 in
      list_opened-Orderly fuel path (k.rax w.calls asked) (record_call asked w)
        (d.wide w.calls asked)

  pub cmd_ls-Orderly :
      (fuel next : ℕ) (s : Text) (w : World)
      → HasText w.buffer next s
      → Orderly Anyhow (cmd_ls k fuel next w)
  unfolding cmd_ls
  cmd_ls-Orderly fuel next s w text = elim (find_arg-Finds w.buffer next s text) [
    | no_word found none_there ↦ rw found (dirlist-Orderly fuel (codes "/") w)
    | word path rest found onward there some_letter ws ↦
        let cut = terminate_arg-Cuts w.buffer path rest there in
        let w1 = record w { buffer = cut.out } in
        rw (found, cut.returns, text_at_lem w1 path (lead rest) cut.word)
          (dirlist-Orderly fuel (lead rest) w1)
  ]
