-- ===== src/Command/Listing/Frame.antt =====
-- init/command.c: ls leaves the queue alone.
use minlinux.Base.{
  ◌≡◌, ℕ, zero, suc, refl, ◌+◌, ◌*◌, Bool, true, false, ltb, [], ◌∷◌, Option, none, some, codes,
}
use minlinux.Base.Int.{ℤ, pos, negsuc, to_u64}
use minlinux.Memory.{Memory, load}
use minlinux.Util.Text.{strlen}
use minlinux.System.{Kernel, World}
use minlinux.System.Abi.{Constant}
use minlinux.System.Wrappers
use minlinux.System.Wrappers.{Text}
use minlinux.System.Print.Frame.{write_int-Kept}
use minlinux.System.Frame.{later, Same, Kept, goes_on, ends, calls_Same, and_then-Kept, run-Kept}
use minlinux.Command.Frame.{find_in_line-Kept, terminate_in_line-Kept, text_at-Kept}
use minlinux.Command.Listing.{entries_loop, batches_loop, list_opened, dirlist, list_path, cmd_ls}

module _ (k : Kernel) where
  abbrev EntriesKept : ℕ → Memory → ℕ → Type 0
  EntriesKept fuel buffer count =
      (at : ℕ) (v w : World) → Same v w → Kept v (entries_loop k fuel buffer count at w)

  entry-Kept :
      (fuel : ℕ) (buffer : Memory) (count at : ℕ) (v w : World) (more : Bool)
      → ltb at count ≡ more
      → Same v w
      → EntriesKept fuel buffer count
      → Kept v (entries_loop k (suc fuel) buffer count at w)
  unfolding entries_loop
  entry-Kept fuel buffer count at v w false e s rest = rw (entries_loop, e) (goes_on s)
  entry-Kept fuel buffer count at v w true e s rest =
      rw (entries_loop, e)
        (and_then-Kept (run-Kept (strlen buffer (at + 19)) s) (λ n w1 s1.
          and_then-Kept (run-Kept (load buffer (at + 18)) (calls_Same s1 (later refl s1.quiet)))
            (λ type w2 s2.
              and_then-Kept (run-Kept (load buffer (at + 16)) (calls_Same s2 (later refl s2.quiet)))
                (λ low w3 s3.
                  and_then-Kept (run-Kept (load buffer (at + 17)) s3)
                    (λ high w4 s4. rest (at + (low + 256 * high)) v w4 s4)))))

  entries_loop-Kept : (fuel : ℕ) (buffer : Memory) (count : ℕ) → EntriesKept fuel buffer count
  unfolding entries_loop
  entries_loop-Kept zero buffer count at v w s = ends s tt
  entries_loop-Kept (suc fuel) buffer count at v w s =
      entry-Kept fuel buffer count at v w (ltb at count) refl s
        (entries_loop-Kept fuel buffer count)

  abbrev BatchesKept : ℕ → ℤ → Type 0
  BatchesKept fuel fd = (v w : World) → Same v w → Kept v (batches_loop k fuel fd w)

  batch-Kept :
      (fuel : ℕ) (fd : ℤ) (v w : World) (count : ℤ)
      → k.rax w.calls (Wrappers.getdents64 fd 1024) ≡ count
      → Same v w
      → BatchesKept fuel fd
      → Kept v (batches_loop k (suc fuel) fd w)
  unfolding batches_loop
  batch-Kept fuel fd v w (pos zero) e s rest =
      rw (batches_loop, e) (goes_on (calls_Same s (later refl s.quiet)))
  batch-Kept fuel fd v w (pos (suc n)) e s rest =
      let m = k.bytes w.calls (Wrappers.getdents64 fd 1024) in
      rw (batches_loop, e)
        (and_then-Kept
          (entries_loop-Kept (suc (suc n)) m (suc n) 0 v _ (calls_Same s (later refl s.quiet)))
          (λ _ w' s'. rest v w' s'))
  batch-Kept fuel fd v w (negsuc n) e s rest =
      rw (batches_loop, e) (goes_on (calls_Same s (later refl s.quiet)))

  batches_loop-Kept : (fuel : ℕ) (fd : ℤ) → BatchesKept fuel fd
  unfolding batches_loop
  batches_loop-Kept zero fd v w s = ends s tt
  batches_loop-Kept (suc fuel) fd v w s =
      batch-Kept fuel fd v w (k.rax w.calls (Wrappers.getdents64 fd 1024)) refl s
        (batches_loop-Kept fuel fd)

  list_opened-Kept :
      (fuel : ℕ) (path : Text) (fd : ℤ) {v w : World}
      → Same v w
      → Kept v (list_opened k fuel path fd w)
  unfolding list_opened
  list_opened-Kept fuel path (pos fd) s = batches_loop-Kept fuel (pos fd) _ _ s
  list_opened-Kept fuel path (negsuc n) s =
      and_then-Kept
        (write_int-Kept k (calls_Same s (later refl (later refl (later refl s.quiet))))
          (to_u64 (negsuc n)))
        (λ _ w' s'. goes_on (calls_Same s' (later refl s'.quiet)))

  dirlist-Kept : (fuel : ℕ) (path : Text) {v w : World} → Same v w → Kept v (dirlist k fuel path w)
  unfolding dirlist
  dirlist-Kept fuel path {v} {w} s =
      let asked =
        Wrappers.open_file path (Constant.o_rdonly ∷ Constant.o_noatime ∷ Constant.o_directory ∷ [])
          0 in
      list_opened-Kept fuel path (k.rax w.calls asked) (calls_Same s (later refl s.quiet))

  list_path-Kept :
      (fuel : ℕ) (dir : Option ℕ) {v w : World} → Same v w → Kept v (list_path k fuel dir w)
  unfolding list_path
  list_path-Kept fuel none s = dirlist-Kept fuel (codes "/") s
  list_path-Kept fuel (some dir) s =
      and_then-Kept (terminate_in_line-Kept s dir)
        (λ _ w1 s1. and_then-Kept (text_at-Kept s1 dir) (λ path w2 s2. dirlist-Kept fuel path s2))

  pub cmd_ls-Kept : (fuel next : ℕ) {v w : World} → Same v w → Kept v (cmd_ls k fuel next w)
  unfolding cmd_ls
  cmd_ls-Kept fuel next s =
      and_then-Kept (find_in_line-Kept s next) (λ dir w' s'. list_path-Kept fuel dir s')
